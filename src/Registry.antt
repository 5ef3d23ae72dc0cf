-- ===== src/Registry.antt =====
-- src/param.h, src/MeasurePoint.cpp, src/MonitorUnit.cpp, and the registries of src/SerialPort.cpp
-- and src/DeviceManager.cpp: what the configuration names, by `std::map`s.
pub mod Keyed
pub mod Lookup
pub mod Precisions
use Prim.Native.String.{String, ◌++◌ as str_append}
use text.Mathlib.Text.{◌==◌ as str_eq}
use dbdky_gcc.Common.{ℕ, Option, none, some, List, [], ◌∷◌, Bool, ◌||◌, if◌then◌else◌}
use dbdky_gcc.Common.Dict.{Dict, lookup, assign}

abbrev pub empty : String → Bool
empty s = str_eq s ""

-- `find` with an empty name refused, and `insert`, which keeps what is there.
unfoldable pub get_named {ℓ} : {V : Type ℓ} → String → Dict V → Option V
get_named name m = if empty name then none else lookup name m

unfoldable pub insert_new {ℓ} : {V : Type ℓ} → String → V → Dict V → Dict V
insert_new k v m = elim (lookup k m) [ none ↦ assign k v m | some w ↦ m ]

pub record Param : Type 0 where
  pub name : String
  pub desc : String
  pub unit : String
  pub precision : String
  pub range : String
  pub filter : String
  pub addresslen : String
  pub address : String
  pub registernum : String

pub record MeasurePoint : Type 0 where
  pub deviceid : String
  pub ied_name : String
  pub id : String
  pub checktime : String
  pub param_list : Dict Param

pub record MonitorUnit : Type 0 where
  pub name : String
  pub interval : String
  pub protocolname : String
  pub mac : String
  pub manufacturer : String
  pub cycleid : String
  pub ytime : String
  pub measure_point_list : Dict MeasurePoint

-- `typedef struct ComConfig`.
pub record ComConfig : Type 0 where
  pub name : String
  pub desc : String
  pub portname : String
  pub baudrate : String
  pub databits : String
  pub stopbits : String
  pub parity : String
  pub totaltimeout : String
  pub intervaltimeout : String
  pub inbuffersize : String
  pub outbuffersize : String

-- A serial port, as the registries see it.
pub record PortEntry : Type 0 where
  pub config : ComConfig
  pub monitor_unit_list : Dict MonitorUnit

pub record DeviceManager : Type 0 where
  pub serial_port_list : Dict PortEntry

unfoldable pub get_param_by_name : String → MeasurePoint → Option Param
unfolding get_named
get_param_by_name name mp = get_named name mp.param_list

-- Both overloads of `insertParam`.
unfoldable pub insert_param : Param → MeasurePoint → MeasurePoint
unfolding insert_new
insert_param p mp =
    if empty p.name then mp else record mp { param_list = insert_new p.name p mp.param_list }

unfoldable pub new_measure_point : String → String → String → String → MeasurePoint
new_measure_point deviceid ied_name id checktime = record {
  deviceid = deviceid;
  ied_name = ied_name;
  id = id;
  checktime = checktime;
  param_list = [];
}

unfoldable pub insert_measure_point : String → String → String → String → MonitorUnit → MonitorUnit
unfolding insert_new new_measure_point
insert_measure_point deviceid ied_name id checktime u = if empty deviceid then u else record u {
  measure_point_list =
      insert_new deviceid (new_measure_point deviceid ied_name id checktime) u.measure_point_list;
}

unfoldable pub get_measure_point_by_deviceid : String → MonitorUnit → Option MeasurePoint
unfolding get_named
get_measure_point_by_deviceid deviceid u = get_named deviceid u.measure_point_list

-- `measurePointList_.begin()`, where there is one.
unfoldable pub get_first_measure_point : MonitorUnit → Option MeasurePoint
get_first_measure_point u = elim u.measure_point_list [ [] ↦ none | entry ∷ rest ↦ some entry.1 ]

unfoldable pub new_monitor_unit :
    String → String → String → String → String → String → String → MonitorUnit
new_monitor_unit name interval protocolname mac manufacturer cycleid ytime = record {
  name = name;
  interval = interval;
  protocolname = protocolname;
  mac = mac;
  manufacturer = manufacturer;
  cycleid = cycleid;
  ytime = ytime;
  measure_point_list = [];
}

-- The key of a unit joins the protocol's name and the address.
unfoldable pub unit_key : MonitorUnit → String
unit_key u = str_append u.protocolname u.mac

unfoldable pub insert_monitor_unit :
    String → String → String → String → String → String → String → PortEntry → PortEntry
unfolding insert_new new_monitor_unit unit_key
insert_monitor_unit name interval protocolname mac manufacturer cycleid ytime port =
    let u = new_monitor_unit name interval protocolname mac manufacturer cycleid ytime in
    if (empty name || (empty protocolname || empty mac))
    then port
    else record port { monitor_unit_list = insert_new (unit_key u) u port.monitor_unit_list }

unfoldable pub get_monitor_unit_by_name : String → PortEntry → Option MonitorUnit
unfolding get_named
get_monitor_unit_by_name name port = get_named name port.monitor_unit_list

unfoldable pub get_serial_port_by_name : String → DeviceManager → Option PortEntry
unfolding get_named
get_serial_port_by_name name d = get_named name d.serial_port_list

unfoldable pub new_port : ComConfig → PortEntry
new_port config = record { config = config; monitor_unit_list = [] }

unfoldable pub insert_serial_port : ComConfig → DeviceManager → DeviceManager
unfolding get_serial_port_by_name insert_new new_port
insert_serial_port config d =
    if empty config.name then d else elim (get_serial_port_by_name config.name d) [
      | none ↦ record d {
        serial_port_list = insert_new config.name (new_port config) d.serial_port_list;
      }
      | some port ↦ d
    ]

-- The map of `getParamConfigList`; `lexical_cast` is boost's, `none` where it throws.
module _ {F : Type 0} (lexical_cast : String → Option F) where
  unfoldable pub collect_params : Dict Param → Dict F → Dict F
  collect_params [] ret = ret
  collect_params ((key, p) ∷ params) ret = collect_params params (elim (lexical_cast p.precision) [
    | none ↦ ret
    | some precision ↦ assign p.name precision ret
  ])

  unfoldable pub collect_points : Dict MeasurePoint → Dict F → Dict F
  unfolding collect_params
  collect_points [] ret = ret
  collect_points ((key, mp) ∷ points) ret = collect_points points (collect_params mp.param_list ret)

  unfoldable pub get_param_config_list : MonitorUnit → Dict F
  unfolding collect_points
  get_param_config_list u = collect_points u.measure_point_list []
