-- ===== src/Tests/LoadingTests.antt =====
-- A configuration with one port, one unit, one measure point and one parameter.
use Prim.Native.String.{String}
use text.Mathlib.Text.{◌==◌ as str_eq}
use dbdky_gcc.Common.{◌≡◌, refl, Option, none, some, [], ◌∷◌, Bool, true, false, if◌then◌else◌}
use dbdky_gcc.Common.Dict.{lookup, assign}
use dbdky_gcc.Registry.{
  DeviceManager, insert_param, insert_measure_point, get_measure_point_by_deviceid,
  insert_monitor_unit, get_monitor_unit_by_name, get_serial_port_by_name, insert_serial_port,
}
use dbdky_gcc.Loading.{
  new_param, fill, get_full_params, load, search_params, search_points, search_devices, read_config,
  update_port, update_unit, insert_point_param,
}
use dbdky_gcc.Loading.Xml.{Node, Nodes, element, comment, nil, cons, first_child}
use dbdky_gcc.Loading.Keyed.{load-AllKeyed}
use dbdky_gcc.Loading.Names.{IfReturns, AllKeyed}
use dbdky_gcc.Loading.Search.{get_full_params-first, get_full_params-aborts}

abbrev amp_element : Node
amp_element =
    element "param"
      (("address", "3")
        ∷ ("addresslen", "2")
        ∷ ("desc", "amplitude")
        ∷ ("filter", "")
        ∷ ("name", "Amp")
        ∷ ("precision", "0.1")
        ∷ ("range", "1000")
        ∷ ("unit", "mV")
        ∷ [])
      nil

abbrev one_device : Nodes
one_device =
    cons
      (element "Device" (("id", "D1") ∷ [])
        (cons (element "MeasurePoint" (("name", "P1") ∷ []) (cons amp_element nil)) nil))
      nil

abbrev all_params : Nodes → Nodes
all_params devices =
    cons (comment "made by hand")
      (cons (element "DataConfig" [] (cons (element "Substation" [] devices) nil)) nil)

get_full_params-first_example :
    get_full_params "D1" "P1" "Amp" (new_param "Amp") (some (all_params one_device))
    ≡ some (record (new_param "Amp") {
      desc = "amplitude";
      unit = "mV";
      precision = "0.1";
      range = "1000";
      filter = "";
      addresslen = "2";
      address = "3";
    })
unfolding first_child fill lookup
get_full_params-first_example =
    get_full_params-first "D1" "P1" "Amp" (new_param "Amp") (all_params one_device) one_device refl
      (("D1", refl), ((λ h. ("P1", refl)), ((λ h. ("Amp", refl)), tt), tt), tt)

get_full_params-aborts_example :
    get_full_params "D1" "P1" "Amp"
      (new_param "Amp")
      (some (all_params (cons (comment "the first device") one_device)))
    ≡ none
unfolding first_child
get_full_params-aborts_example =
    get_full_params-aborts "D1" "P1" "Amp" (new_param "Amp")
      (all_params (cons (comment "the first device") one_device)) nil (comment "the first device")
      one_device refl tt refl refl

abbrev no_ports : DeviceManager
no_ports = record { serial_port_list = [] }

abbrev one_unit : Node
one_unit =
    element "MonitorUnit"
      (("cycleid", "1")
        ∷ ("interval", "60")
        ∷ ("mac", "7")
        ∷ ("manufacturer", "M")
        ∷ ("name", "U1")
        ∷ ("port", "COM1")
        ∷ ("protocolname", "MMXN")
        ∷ ("ytime", "0")
        ∷ [])
      (cons
        (element "MeasurePoint"
          (("IEDName", "I1") ∷ ("checktime", "0") ∷ ("deviceid", "D1") ∷ ("id", "P1") ∷ [])
          (cons (element "param" (("name", "Amp") ∷ []) nil) nil))
        nil)

abbrev one_port : Nodes
one_port =
    cons
      (element "package" []
        (cons (element "RS485" (("desc", "") ∷ ("name", "COM1") ∷ []) nil) (cons one_unit nil)))
      nil

abbrev files : String → Option Nodes
files path = if str_eq path "/opt/all.xml" then some (all_params one_device) else some one_port

load-AllKeyed_example :
    IfReturns (load (some "/opt/") files "all.xml" ("a.xml" ∷ []) no_ports) AllKeyed
load-AllKeyed_example = load-AllKeyed (some "/opt/") files "all.xml" ("a.xml" ∷ []) no_ports

-- The file is read without an abort.
has_port : Option DeviceManager → Bool
has_port none = false
has_port (some d) = elim d.serial_port_list [ [] ↦ false | e ∷ l ↦ true ]

loads : has_port (load (some "/opt/") files "all.xml" ("a.xml" ∷ []) no_ports) ≡ true
unfolding has_port load first_child fill lookup get_full_params assign search_params search_points
    search_devices read_config update_port update_unit insert_point_param insert_param
    insert_measure_point get_measure_point_by_deviceid insert_monitor_unit get_monitor_unit_by_name
    get_serial_port_by_name insert_serial_port
loads = refl
