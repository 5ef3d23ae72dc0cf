-- ===== src/Loading.antt =====
-- `load` and `getFullParams` of src/DeviceManager.cpp: the registries, filled from the files of the
-- configuration. A NULL where the source makes a string of it is `none`.
pub mod Keyed
pub mod Names
pub mod Search
pub mod Xml
use Prim.Native.String.{String, ◌++◌ as str_append}
use text.Mathlib.Text.{◌==◌ as str_eq}
use dbdky_gcc.Common.{
  Option, none, some, map, List, [], ◌∷◌, Bool, true, false, not, ◌||◌, if◌then◌else◌, ◌>>=◌, ◌>>◌,
}
use dbdky_gcc.Common.Dict.{assign}
use dbdky_gcc.Registry.{
  Param, MonitorUnit, ComConfig, PortEntry, DeviceManager, empty, insert_param,
  insert_measure_point, get_measure_point_by_deviceid, insert_monitor_unit,
  get_monitor_unit_by_name, get_serial_port_by_name, insert_serial_port,
}
use Xml.{Node, Nodes, nil, cons, value, is_element, children, attribute, get_text, first_child}

-- The outcome of a search that goes on with the next sibling where nothing was found.
abbrev pub or_later : Option (Option Param) → Option (Option Param) → Option (Option Param)
or_later none later = none
or_later (some none) later = later
or_later (some (some p)) later = some (some p)

-- The attributes that are copied into the parameter.
unfoldable pub fill : Param → Node → Option Param
fill param n = do
  desc ← attribute "desc" n
  unit ← attribute "unit" n
  precision ← attribute "precision" n
  range ← attribute "range" n
  filter ← attribute "filter" n
  addresslen ← attribute "addresslen" n
  address ← attribute "address" n
  some (record param {
    desc = desc;
    unit = unit;
    precision = precision;
    range = range;
    filter = filter;
    addresslen = addresslen;
    address = address;
  })

abbrev pub found : Option Param → Option (Option Param)
found none = none
found (some p) = some (some p)

-- The three loops of `getFullParams`, from the inner one to the outer one.
unfoldable pub search_params : String → Param → Nodes → Option (Option Param)
search_params paramname param nil = some none
search_params paramname param (cons n l) =
    let later = search_params paramname param l in
    if not (str_eq (value n) "param")
    then later
    else attribute "name" n >>= λ name.
        if not (str_eq name paramname) then later else found (fill param n)

unfoldable pub search_points : String → String → Param → Nodes → Option (Option Param)
search_points id paramname param nil = some none
search_points id paramname param (cons n l) =
    let later = search_points id paramname param l in
    if not (str_eq (value n) "MeasurePoint")
    then later
    else attribute "name" n >>= λ name.
        if not (str_eq name id)
        then later
        else or_later (search_params paramname param (children n)) later

unfoldable pub search_devices : String → String → String → Param → Nodes → Option (Option Param)
search_devices deviceid id paramname param nil = some none
search_devices deviceid id paramname param (cons n l) =
    let later = search_devices deviceid id paramname param l in
    attribute "id" n >>= λ devid.
    if not (str_eq (value n) "Device") || not (str_eq deviceid devid)
    then later
    else or_later (search_points id paramname param (children n)) later

abbrev pub settled : Param → Option (Option Param) → Option Param
settled param none = none
settled param (some none) = some param
settled param (some (some p)) = some p

-- The first child of a name, if it is an element, and its children.
abbrev pub inside : Nodes → Option Nodes
inside nil = none
inside (cons n l) = if is_element n then some (children n) else none

abbrev full_params : String → String → String → Param → Option Nodes → Option Param
full_params deviceid id paramname param none = some param
full_params deviceid id paramname param (some nodes) =
    settled param (search_devices deviceid id paramname param nodes)

-- The document is `none` where the file cannot be opened.
unfoldable pub get_full_params : String → String → String → Param → Option Nodes → Option Param
get_full_params deviceid id paramname param doc = full_params deviceid id paramname param (do
  nodes ← doc
  config ← inside (first_child "DataConfig" nodes)
  inside (first_child "Substation" config))

-- The settings of a port: the text of each child, by its name.
unfoldable pub set_config : String → String → ComConfig → ComConfig
set_config name text c =
    if str_eq name "PortName"
    then record c { portname = text }
    else if str_eq name "BaudRate"
    then record c { baudrate = text }
    else if str_eq name "DataBits"
    then record c { databits = text }
    else if str_eq name "StopBits"
    then record c { stopbits = text }
    else if str_eq name "Parity"
    then record c { parity = text }
    else if str_eq name "TotalTimeOut"
    then record c { totaltimeout = text }
    else if str_eq name "IntervalTimeOut"
    then record c { intervaltimeout = text }
    else if str_eq name "InBufferSize"
    then record c { inbuffersize = text }
    else if str_eq name "OutBufferSize"
    then record c { outbuffersize = text }
    else c

unfoldable pub read_config : Nodes → ComConfig → Option ComConfig
read_config nil c = some c
read_config (cons n l) c = do t ← get_text n; read_config l (set_config (value n) t c)

-- A change of a port that the map holds, and of a unit and a measure point below it.
unfoldable pub update_port : String → (PortEntry → PortEntry) → DeviceManager → DeviceManager
update_port name f d = elim (get_serial_port_by_name name d) [
  | none ↦ d
  | some port ↦ record d { serial_port_list = assign name (f port) d.serial_port_list }
]

unfoldable pub update_unit : String → (MonitorUnit → MonitorUnit) → PortEntry → PortEntry
update_unit key f port = elim (get_monitor_unit_by_name key port) [
  | none ↦ port
  | some u ↦ record port { monitor_unit_list = assign key (f u) port.monitor_unit_list }
]

unfoldable pub insert_point_param : String → Param → MonitorUnit → MonitorUnit
insert_point_param deviceid p u = elim (get_measure_point_by_deviceid deviceid u) [
  | none ↦ u
  | some mp ↦ record u {
    measure_point_list = assign deviceid (insert_param p mp) u.measure_point_list;
  }
]

abbrev pub new_param : String → Param
new_param name = record {
  name = name;
  desc = "";
  unit = "";
  precision = "";
  range = "";
  filter = "";
  addresslen = "";
  address = "";
  registernum = "";
}

abbrev pub new_config : String → String → ComConfig
new_config name desc = record {
  name = name;
  desc = desc;
  portname = "";
  baudrate = "";
  databits = "";
  stopbits = "";
  parity = "";
  totaltimeout = "";
  intervaltimeout = "";
  inbuffersize = "";
  outbuffersize = "";
}

-- Whether the loops step over a node.
abbrev pub skips : String → Node → Bool
skips name n = not (str_eq (value n) name) || not (is_element n)

-- `total` is the document with all parameters.
module _ (total : Option Nodes) where
  unfoldable pub load_params : String → String → Nodes → MonitorUnit → Option MonitorUnit
  load_params deviceid id nil u = some u
  load_params deviceid id (cons n l) u = elim (skips "param" n) [
    | true ↦ load_params deviceid id l u
    | false ↦ do
      name ← attribute "name" n
      p ← get_full_params deviceid id name (new_param name) total
      load_params deviceid id l (insert_point_param deviceid p u)
  ]

  -- A measure point of a unit, which is looked up by its key each time.
  unfoldable pub put_point :
      String → String → Nodes → (MonitorUnit → MonitorUnit) → String → PortEntry → Option PortEntry
  unfolding load_params
  put_point deviceid id params insert key port = elim (get_monitor_unit_by_name key port) [
    | none ↦ some port
    | some u ↦ do
      u' ← load_params deviceid id params (insert u)
      some (update_unit key (λ v. u') port)
  ]

  unfoldable pub load_point : String → Node → PortEntry → Option PortEntry
  unfolding put_point
  load_point key n port = do
    deviceid ← attribute "deviceid" n
    ied_name ← attribute "IEDName" n
    id ← attribute "id" n
    checktime ← attribute "checktime" n
    put_point deviceid id (children n) (insert_measure_point deviceid ied_name id checktime) key
        port

  unfoldable pub load_points : String → Nodes → PortEntry → Option PortEntry
  unfolding load_point
  load_points key nil port = some port
  load_points key (cons n l) port = elim (skips "MeasurePoint" n) [
    | true ↦ load_points key l port
    | false ↦ do port' ← load_point key n port; load_points key l port'
  ]

  -- A unit of a port, which is stepped over where the port is not there.
  unfoldable pub put_unit :
      String → Nodes → (PortEntry → PortEntry) → String → DeviceManager → Option DeviceManager
  unfolding load_points
  put_unit key points insert port_name d = elim (get_serial_port_by_name port_name d) [
    | none ↦ some d
    | some port ↦ do
      port' ← load_points key points (insert port)
      some (update_port port_name (λ p. port') d)
  ]

  unfoldable pub load_unit : Node → DeviceManager → Option DeviceManager
  unfolding put_unit
  load_unit n d = do
    name ← attribute "name" n
    interval ← attribute "interval" n
    protocolname ← attribute "protocolname" n
    port_name ← attribute "port" n
    manufacturer ← attribute "manufacturer" n
    cycleid ← attribute "cycleid" n
    mac ← attribute "mac" n
    ytime ← attribute "ytime" n
    put_unit (str_append protocolname mac) (children n)
        (insert_monitor_unit name interval protocolname mac manufacturer cycleid ytime) port_name d

  -- The siblings behind the port's element.
  unfoldable pub load_units : Nodes → DeviceManager → Option DeviceManager
  unfolding load_unit
  load_units nil d = some d
  load_units (cons n l) d = elim (skips "MonitorUnit" n) [
    | true ↦ load_units l d
    | false ↦ do d' ← load_unit n d; load_units l d'
  ]

  -- From the element of the port on; a port without a name is refused.
  unfoldable pub load_named : Node → Nodes → String → DeviceManager → Option DeviceManager
  unfolding load_units
  load_named n siblings name d = elim (empty name) [
    | true ↦ some d
    | false ↦ do
      desc ← attribute "desc" n
      config ← read_config (children n) (new_config name desc)
      load_units siblings (insert_serial_port config d)
  ]

  unfoldable pub load_port : Nodes → DeviceManager → Option DeviceManager
  unfolding load_named
  load_port nil d = some d
  load_port (cons n siblings) d = elim (is_element n) [
    | false ↦ some d
    | true ↦ do name ← attribute "name" n; load_named n siblings name d
  ]

  -- One file; a file that cannot be opened, or without a package, changes nothing.
  unfoldable pub load_file : Option Nodes → DeviceManager → Option DeviceManager
  unfolding load_port
  load_file none d = some d
  load_file (some nodes) d = elim (inside (first_child "package" nodes)) [
    | none ↦ some d
    | some content ↦ load_port (first_child "RS485" content) d
  ]

  unfoldable pub load_files : List (Option Nodes) → DeviceManager → Option DeviceManager
  unfolding load_file
  load_files [] d = some d
  load_files (file ∷ l) d = do d' ← load_file file d; load_files l d'

-- `load`, by the directory of the program, which is `none` where the link cannot be read or does not
-- name the program; `read` gives the document of a path.
unfoldable pub load :
    Option String
    → (String → Option Nodes)
    → String
    → List String
    → DeviceManager
    → Option DeviceManager
unfolding load_files
load none read total files d = some (record d { serial_port_list = [] })
load (some directory) read total files d =
    load_files (read (str_append directory total))
      (map (λ file. read (str_append directory file)) files) (record d { serial_port_list = [] })
