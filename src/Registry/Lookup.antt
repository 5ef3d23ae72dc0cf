-- ===== src/Registry/Lookup.antt =====
-- What the registries answer after an insertion.
use Prim.Native.String.{String, ◌++◌ as str_append}
use text.Mathlib.Text.{◌==◌ as str_eq}
use text.Mathlib.TextEquality.{eq_iff}
use text.Mathlib.TextLemmas.{append-eq-nil_iff}
use dbdky_gcc.Common.{
  ◌≡◌, refl, Option, none, some, [], Bool, false, ◌||◌, if◌then◌else◌, arith, Option-cases,
  Bool-cases, inl, inr,
}
use dbdky_gcc.Common.Dict.{Dict, lookup, lookup-assign}
use dbdky_gcc.Registry.{
  empty, get_named, insert_new, Param, MeasurePoint, MonitorUnit, ComConfig, PortEntry,
  DeviceManager, get_param_by_name, insert_param, new_measure_point, insert_measure_point,
  get_measure_point_by_deviceid, new_monitor_unit, unit_key, insert_monitor_unit,
  get_monitor_unit_by_name, new_port, get_serial_port_by_name, insert_serial_port,
}

-- What is found under `name` after an insertion under `key` of something that stays out of the
-- registry where `refused` holds: the old entries stay, and the new one is found under its key.
abbrev pub found_after {ℓ} : {V : Type ℓ} → Bool → String → V → String → Option V → Option V
found_after refused key v name before =
    if refused
    then before
    else elim before [ some old ↦ some old | none ↦ if str_eq key name then some v else none ]

get_named-insert_new {ℓ} :
    {V : Type ℓ} (key name : String) (v : V) (m : Dict V)
    → empty key ≡ false
    → get_named name (insert_new key v m) ≡ found_after false key v name (get_named name m)
unfolding get_named insert_new
get_named-insert_new key name v m h = ground (
  arith,
  h,
  eq_iff key name,
  eq_iff name "",
  eq_iff key "",
  Option-cases (lookup key m),
  lookup-assign key name v m,
)

-- After `insertParam`, a parameter is found that was there or is the inserted one, which is kept
-- out by an empty name and by an entry under its name.
pub get_param_by_name-insert_param :
    (p : Param) (mp : MeasurePoint) (name : String)
    → get_param_by_name name (insert_param p mp)
      ≡ found_after (empty p.name) p.name p name (get_param_by_name name mp)
unfolding get_param_by_name insert_param
get_param_by_name-insert_param p mp name = elim (Bool-cases (empty p.name)) [
  | inl e ↦ rw e refl
  | inr e ↦ rw e (get_named-insert_new p.name name p mp.param_list e)
]

-- After `insertMeasurePoint`, a point is found that was there or is the inserted one, which has no
-- parameters yet, and is kept out by an empty id and by an entry under its id.
pub get_measure_point_by_deviceid-insert_measure_point :
    (deviceid ied_name id checktime : String) (u : MonitorUnit) (name : String)
    → get_measure_point_by_deviceid name (insert_measure_point deviceid ied_name id checktime u)
      ≡ found_after
          (empty deviceid)
          deviceid
          (record {
            deviceid = deviceid;
            ied_name = ied_name;
            id = id;
            checktime = checktime;
            param_list = [];
          })
          name
          (get_measure_point_by_deviceid name u)
unfolding get_measure_point_by_deviceid insert_measure_point new_measure_point
get_measure_point_by_deviceid-insert_measure_point deviceid ied_name id checktime u name =
    elim (Bool-cases (empty deviceid)) [
      | inl e ↦ rw e refl
      | inr e ↦ rw e (get_named-insert_new deviceid name _ u.measure_point_list e)
    ]

-- After `insertSerialPort`, a port is found that was there or is the inserted one, which has no
-- units yet, and is kept out by an empty name and by an entry under its name.
pub get_serial_port_by_name-insert_serial_port :
    (config : ComConfig) (d : DeviceManager) (name : String)
    → get_serial_port_by_name name (insert_serial_port config d)
      ≡ found_after
          (empty config.name)
          config.name
          (record { config = config; monitor_unit_list = [] })
          name
          (get_serial_port_by_name name d)
unfolding get_serial_port_by_name insert_serial_port new_port get_named insert_new
get_serial_port_by_name-insert_serial_port config d name = ground (
  arith,
  eq_iff config.name name,
  eq_iff name "",
  eq_iff config.name "",
  Option-cases (lookup config.name d.serial_port_list),
  lookup-assign config.name name (new_port config) d.serial_port_list,
)

pub unit_key-full : (u : MonitorUnit) → empty u.protocolname ≡ false → empty (unit_key u) ≡ false
unfolding unit_key
unit_key-full u h = elim (Bool-cases (empty (str_append u.protocolname u.mac))) [
  | inl e ↦
      let both = append-eq-nil_iff.0 ((eq_iff (str_append u.protocolname u.mac) "").0 e) in
      absurd (cc (h, (eq_iff u.protocolname "").1 both.0))
  | inr e ↦ e
]

-- After `insertMonitorUnit`, a unit is found that was there or is the inserted one. Its key is the
-- protocol's name before the address. It has no points yet, and is kept out where its name, its
-- protocol or its address is empty, and by an entry under its key.
pub get_monitor_unit_by_name-insert_monitor_unit :
    (name interval protocolname mac manufacturer cycleid ytime : String) (port : PortEntry)
    (key : String)
    → get_monitor_unit_by_name key
        (insert_monitor_unit name interval protocolname mac manufacturer cycleid ytime port)
      ≡ found_after
          (empty name || (empty protocolname || empty mac))
          (str_append protocolname mac)
          (new_monitor_unit name interval protocolname mac manufacturer cycleid ytime)
          key
          (get_monitor_unit_by_name key port)
unfolding get_monitor_unit_by_name insert_monitor_unit unit_key
get_monitor_unit_by_name-insert_monitor_unit name interval protocolname mac manufacturer cycleid
      ytime port key =
    elim (Bool-cases (empty name || (empty protocolname || empty mac))) [
      | inl e ↦ rw e refl
      | inr e ↦ rw e (
          get_named-insert_new (str_append protocolname mac) key unit port.monitor_unit_list
            (unit_key-full unit (ground (arith, e))))
    ]
  where
    unit : MonitorUnit
    unit = new_monitor_unit name interval protocolname mac manufacturer cycleid ytime
