-- ===== src/Loading/Names.antt =====
-- The insertions of `load` put everything under its own name.
use Prim.Native.String.{String}
use dbdky_gcc.Common.{
  ◌≡◌, refl, Option, none, some, All, Bool-cases, Option-cases, inl, inr, ◌>>=◌, ◌||◌,
}
use dbdky_gcc.Common.Dict.{lookup}
use dbdky_gcc.Registry.{
  Param, MeasurePoint, MonitorUnit, ComConfig, PortEntry, DeviceManager, empty, insert_param,
  new_measure_point, insert_measure_point, get_measure_point_by_deviceid, new_monitor_unit,
  unit_key, insert_monitor_unit, get_monitor_unit_by_name, new_port, get_serial_port_by_name,
  insert_serial_port,
}
use dbdky_gcc.Registry.Keyed.{All-assign, All-insert_new, All-get_named}
use dbdky_gcc.Loading.{update_port, update_unit, insert_point_param}

abbrev pub ParamKeyed : String × Param → Type 0
ParamKeyed e = e.0 ≡ e.1.name

abbrev pub PointKeyed : String × MeasurePoint → Type 0
PointKeyed e = (e.0 ≡ e.1.deviceid) × All ParamKeyed e.1.param_list

abbrev pub UnitKeyed : String × MonitorUnit → Type 0
UnitKeyed e = (e.0 ≡ unit_key e.1) × All PointKeyed e.1.measure_point_list

abbrev pub PortKeyed : String × PortEntry → Type 0
PortKeyed e = (e.0 ≡ e.1.config.name) × All UnitKeyed e.1.monitor_unit_list

-- What holds of a result, where there is one.
abbrev pub IfReturns {ℓ κ} : {A : Type ℓ} → Option A → (A → Type κ) → Type κ
IfReturns none P = Unit
IfReturns (some a) P = P a

pub IfReturns-bind {ℓ κ μ ν} :
    {A : Type ℓ} {B : Type κ} (m : Option A) (f : A → Option B) (P : A → Type μ) (Q : B → Type ν)
    → IfReturns m P
    → ((a : A) → P a → IfReturns (f a) Q)
    → IfReturns (m >>= f) Q
IfReturns-bind none f P Q h k = tt
IfReturns-bind (some a) f P Q h k = k a h

pub IfReturns-any {ℓ κ ν} :
    {A : Type ℓ} {B : Type κ} (m : Option A) (f : A → Option B) (Q : B → Type ν)
    → ((a : A) → IfReturns (f a) Q)
    → IfReturns (m >>= f) Q
IfReturns-any none f Q k = tt
IfReturns-any (some a) f Q k = k a

pub insert_param-PointKeyed :
    (key : String) (p : Param) (mp : MeasurePoint)
    → PointKeyed (key, mp)
    → PointKeyed (key, insert_param p mp)
unfolding insert_param
insert_param-PointKeyed key p mp h = elim (Bool-cases (empty p.name)) [
  | inl e ↦ rw e h
  | inr e ↦ rw e (h.0, All-insert_new ParamKeyed p.name p mp.param_list refl h.1)
]

pub insert_point_param-UnitKeyed :
    (key deviceid : String) (p : Param) (u : MonitorUnit)
    → UnitKeyed (key, u)
    → UnitKeyed (key, insert_point_param deviceid p u)
unfolding insert_point_param get_measure_point_by_deviceid unit_key
insert_point_param-UnitKeyed key deviceid p u h =
    elim (Option-cases (get_measure_point_by_deviceid deviceid u)) [
      | inl e ↦ rw (e, insert_point_param) h
      | inr (mp, e) ↦
          rw (e, insert_point_param)
            (
              h.0,
              All-assign PointKeyed deviceid (insert_param p mp) u.measure_point_list
                  (insert_param-PointKeyed deviceid p mp
                    (All-get_named PointKeyed deviceid mp u.measure_point_list h.1 e))
                  h.1,
            )
    ]

pub insert_measure_point-UnitKeyed :
    (key deviceid ied_name id checktime : String) (u : MonitorUnit)
    → UnitKeyed (key, u)
    → UnitKeyed (key, insert_measure_point deviceid ied_name id checktime u)
unfolding insert_measure_point new_measure_point unit_key
insert_measure_point-UnitKeyed key deviceid ied_name id checktime u h =
    elim (Bool-cases (empty deviceid)) [
      | inl e ↦ rw e h
      | inr e ↦ rw e (
        h.0,
        All-insert_new PointKeyed deviceid (new_measure_point deviceid ied_name id checktime)
            u.measure_point_list (refl, tt) h.1,
      )
    ]

pub insert_monitor_unit-PortKeyed :
    (key name interval protocolname mac manufacturer cycleid ytime : String) (port : PortEntry)
    → PortKeyed (key, port)
    → PortKeyed
        (key, insert_monitor_unit name interval protocolname mac manufacturer cycleid ytime port)
unfolding insert_monitor_unit new_monitor_unit
insert_monitor_unit-PortKeyed key name interval protocolname mac manufacturer cycleid ytime port h =
    elim (Bool-cases (empty name || (empty protocolname || empty mac))) [
      | inl e ↦ rw e h
      | inr e ↦
          rw e (
            h.0,
            All-insert_new UnitKeyed (unit_key unit) unit port.monitor_unit_list (refl, tt) h.1,
          )
    ]
  where
    unit : MonitorUnit
    unit = new_monitor_unit name interval protocolname mac manufacturer cycleid ytime

pub update_unit-PortKeyed :
    (key unit : String) (u : MonitorUnit) (port : PortEntry)
    → UnitKeyed (unit, u)
    → PortKeyed (key, port)
    → PortKeyed (key, update_unit unit (λ v. u) port)
unfolding update_unit
update_unit-PortKeyed key unit u port k h =
    elim (Option-cases (get_monitor_unit_by_name unit port)) [
      | inl e ↦ rw (e, update_unit) h
      | inr (v, e) ↦
          rw (e, update_unit) (h.0, All-assign UnitKeyed unit u port.monitor_unit_list k h.1)
    ]

abbrev pub AllKeyed : DeviceManager → Type 0
AllKeyed d = All PortKeyed d.serial_port_list

pub update_port-AllKeyed :
    (name : String) (p : PortEntry) (d : DeviceManager)
    → PortKeyed (name, p)
    → AllKeyed d
    → AllKeyed (update_port name (λ q. p) d)
unfolding update_port
update_port-AllKeyed name p d k h = elim (Option-cases (get_serial_port_by_name name d)) [
  | inl e ↦ rw (e, update_port) h
  | inr (v, e) ↦ rw (e, update_port) (All-assign PortKeyed name p d.serial_port_list k h)
]

pub insert_serial_port-AllKeyed :
    (config : ComConfig) (d : DeviceManager) → AllKeyed d → AllKeyed (insert_serial_port config d)
unfolding insert_serial_port new_port
insert_serial_port-AllKeyed config d h = elim (Bool-cases (empty config.name)) [
  | inl e ↦ rw e h
  | inr e ↦ elim (Option-cases (lookup config.name d.serial_port_list)) [
    | inl f ↦
        rw (e, f)
          (All-insert_new PortKeyed config.name (new_port config) d.serial_port_list (refl, tt) h)
    | inr (v, f) ↦ rw (e, f) h
  ]
]
