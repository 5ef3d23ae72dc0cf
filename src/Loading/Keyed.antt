-- ===== src/Loading/Keyed.antt =====
-- The registries that `load` leaves: everything stands under its own name.
use Prim.Native.String.{String, ◌++◌ as str_append}
use dbdky_gcc.Common.{Option, none, some, List, [], ◌∷◌, Bool-cases, Option-cases, inl, inr, map}
use dbdky_gcc.Registry.{
  MonitorUnit, PortEntry, DeviceManager, empty, insert_measure_point, insert_monitor_unit,
  get_monitor_unit_by_name, get_serial_port_by_name, insert_serial_port,
}
use dbdky_gcc.Registry.Keyed.{All-get_named}
use dbdky_gcc.Loading.{
  get_full_params, new_param, skips, read_config, new_config, insert_point_param, load_params,
  put_point, load_point, load_points, put_unit, load_unit, load_units, load_named, load_port,
  load_file, load_files, load, inside,
}
use dbdky_gcc.Loading.Xml.{Node, Nodes, nil, cons, is_element, children, attribute, first_child}
use dbdky_gcc.Loading.Names.{
  UnitKeyed, PortKeyed, IfReturns, IfReturns-bind, IfReturns-any, insert_point_param-UnitKeyed,
  insert_measure_point-UnitKeyed, insert_monitor_unit-PortKeyed, update_unit-PortKeyed, AllKeyed,
  update_port-AllKeyed, insert_serial_port-AllKeyed,
}

module _ (total : Option Nodes) where
  load_params-UnitKeyed :
      (key deviceid id : String) (l : Nodes) (u : MonitorUnit)
      → UnitKeyed (key, u)
      → IfReturns (load_params total deviceid id l u) (λ v. UnitKeyed (key, v))
  unfolding load_params
  load_params-UnitKeyed key deviceid id nil u h = h
  load_params-UnitKeyed key deviceid id (cons n l) u h = elim (Bool-cases (skips "param" n)) [
    | inl e ↦ rw (e, load_params) (load_params-UnitKeyed key deviceid id l u h)
    | inr e ↦
        rw (e, load_params)
          (IfReturns-any (attribute "name" n) _ _ λ name.
            IfReturns-any (get_full_params deviceid id name (new_param name) total) _ _ λ p.
              load_params-UnitKeyed key deviceid id l (insert_point_param deviceid p u)
                (insert_point_param-UnitKeyed key deviceid p u h))
  ]

  put_point-PortKeyed :
      (name deviceid id : String) (params : Nodes) (insert : MonitorUnit → MonitorUnit)
      (key : String) (port : PortEntry)
      → ((u : MonitorUnit) → UnitKeyed (key, u) → UnitKeyed (key, insert u))
      → PortKeyed (name, port)
      → IfReturns (put_point total deviceid id params insert key port) (λ p. PortKeyed (name, p))
  unfolding put_point get_monitor_unit_by_name
  put_point-PortKeyed name deviceid id params insert key port k h =
      elim (Option-cases (get_monitor_unit_by_name key port)) [
        | inl e ↦ rw (e, put_point) h
        | inr (u, e) ↦
            let old = All-get_named UnitKeyed key u port.monitor_unit_list h.1 e in
            rw (e, put_point)
              (IfReturns-bind (load_params total deviceid id params (insert u)) _ _ _
                (load_params-UnitKeyed key deviceid id params (insert u) (k u old))
                λ u' k'. update_unit-PortKeyed name key u' port k' h)
      ]

  load_point-PortKeyed :
      (name key : String) (n : Node) (port : PortEntry)
      → PortKeyed (name, port)
      → IfReturns (load_point total key n port) (λ p. PortKeyed (name, p))
  unfolding load_point
  load_point-PortKeyed name key n port h = IfReturns-any (attribute "deviceid" n) _ _ λ deviceid.
      IfReturns-any (attribute "IEDName" n) _ _ λ ied_name.
        IfReturns-any (attribute "id" n) _ _ λ id.
          IfReturns-any (attribute "checktime" n) _ _ λ checktime.
            put_point-PortKeyed name deviceid id (children n)
              (insert_measure_point deviceid ied_name id checktime) key port
              (λ u k. insert_measure_point-UnitKeyed key deviceid ied_name id checktime u k) h

  load_points-PortKeyed :
      (name key : String) (l : Nodes) (port : PortEntry)
      → PortKeyed (name, port)
      → IfReturns (load_points total key l port) (λ p. PortKeyed (name, p))
  unfolding load_points
  load_points-PortKeyed name key nil port h = h
  load_points-PortKeyed name key (cons n l) port h = elim (Bool-cases (skips "MeasurePoint" n)) [
    | inl e ↦ rw (e, load_points) (load_points-PortKeyed name key l port h)
    | inr e ↦
        rw (e, load_points)
          (IfReturns-bind (load_point total key n port) _ _ _
            (load_point-PortKeyed name key n port h) λ p k. load_points-PortKeyed name key l p k)
  ]

  put_unit-AllKeyed :
      (key : String) (points : Nodes) (insert : PortEntry → PortEntry) (port_name : String)
      (d : DeviceManager)
      → ((p : PortEntry) → PortKeyed (port_name, p) → PortKeyed (port_name, insert p))
      → AllKeyed d
      → IfReturns (put_unit total key points insert port_name d) AllKeyed
  unfolding put_unit get_serial_port_by_name
  put_unit-AllKeyed key points insert port_name d k h =
      elim (Option-cases (get_serial_port_by_name port_name d)) [
        | inl e ↦ rw (e, put_unit) h
        | inr (p, e) ↦
            let old = All-get_named PortKeyed port_name p d.serial_port_list h e in
            rw (e, put_unit)
              (IfReturns-bind (load_points total key points (insert p)) _ _ _
                (load_points-PortKeyed port_name key points (insert p) (k p old))
                λ p' k'. update_port-AllKeyed port_name p' d k' h)
      ]

  load_unit-AllKeyed :
      (n : Node) (d : DeviceManager) → AllKeyed d → IfReturns (load_unit total n d) AllKeyed
  unfolding load_unit
  load_unit-AllKeyed n d h = IfReturns-any (attribute "name" n) _ _ λ name.
      IfReturns-any (attribute "interval" n) _ _ λ interval.
        IfReturns-any (attribute "protocolname" n) _ _ λ protocolname.
          IfReturns-any (attribute "port" n) _ _ λ port_name.
            IfReturns-any (attribute "manufacturer" n) _ _ λ manufacturer.
              IfReturns-any (attribute "cycleid" n) _ _ λ cycleid.
                IfReturns-any (attribute "mac" n) _ _ λ mac.
                  IfReturns-any (attribute "ytime" n) _ _ λ ytime.
                    put_unit-AllKeyed (str_append protocolname mac) (children n)
                      (insert_monitor_unit name interval protocolname mac manufacturer cycleid
                        ytime)
                      port_name d
                      (λ p k.
                        insert_monitor_unit-PortKeyed port_name name interval protocolname mac
                          manufacturer cycleid ytime p k)
                      h

  load_units-AllKeyed :
      (l : Nodes) (d : DeviceManager) → AllKeyed d → IfReturns (load_units total l d) AllKeyed
  unfolding load_units
  load_units-AllKeyed nil d h = h
  load_units-AllKeyed (cons n l) d h = elim (Bool-cases (skips "MonitorUnit" n)) [
    | inl e ↦ rw (e, load_units) (load_units-AllKeyed l d h)
    | inr e ↦
        rw (e, load_units)
          (IfReturns-bind (load_unit total n d) _ _ _ (load_unit-AllKeyed n d h)
            λ d' k. load_units-AllKeyed l d' k)
  ]

  load_named-AllKeyed :
      (n : Node) (siblings : Nodes) (name : String) (d : DeviceManager)
      → AllKeyed d
      → IfReturns (load_named total n siblings name d) AllKeyed
  unfolding load_named
  load_named-AllKeyed n siblings name d h = elim (Bool-cases (empty name)) [
    | inl e ↦ rw (e, load_named) h
    | inr e ↦
        rw (e, load_named)
          (IfReturns-any (attribute "desc" n) _ _ λ desc.
            IfReturns-any (read_config (children n) (new_config name desc)) _ _ λ config.
              load_units-AllKeyed siblings (insert_serial_port config d)
                (insert_serial_port-AllKeyed config d h))
  ]

  load_port-AllKeyed :
      (l : Nodes) (d : DeviceManager) → AllKeyed d → IfReturns (load_port total l d) AllKeyed
  unfolding load_port
  load_port-AllKeyed nil d h = h
  load_port-AllKeyed (cons n siblings) d h = elim (Bool-cases (is_element n)) [
    | inr e ↦ rw (e, load_port) h
    | inl e ↦
        rw (e, load_port)
          (IfReturns-any (attribute "name" n) _ _ λ name. load_named-AllKeyed n siblings name d h)
  ]

  load_file-AllKeyed :
      (doc : Option Nodes) (d : DeviceManager)
      → AllKeyed d
      → IfReturns (load_file total doc d) AllKeyed
  unfolding load_file
  load_file-AllKeyed none d h = h
  load_file-AllKeyed (some nodes) d h = elim (Option-cases (inside (first_child "package" nodes))) [
    | inl e ↦ rw (e, load_file) h
    | inr (content, e) ↦ rw (e, load_file) (load_port-AllKeyed (first_child "RS485" content) d h)
  ]

  load_files-AllKeyed :
      (files : List (Option Nodes)) (d : DeviceManager)
      → AllKeyed d
      → IfReturns (load_files total files d) AllKeyed
  unfolding load_files
  load_files-AllKeyed [] d h = h
  load_files-AllKeyed (file ∷ l) d h =
      IfReturns-bind (load_file total file d) _ _ _ (load_file-AllKeyed file d h)
        λ d' k. load_files-AllKeyed l d' k

-- Whatever the files hold and whatever was loaded before: where `load` returns, each port stands under
-- its own name, each unit under the name of its protocol and its address, each measure point under its
-- device and each parameter under its name.
pub load-AllKeyed :
    (directory : Option String) (read : String → Option Nodes) (total : String)
    (files : List String) (d : DeviceManager)
    → IfReturns (load directory read total files d) AllKeyed
unfolding load
load-AllKeyed none read total files d = tt
load-AllKeyed (some directory) read total files d =
    load_files-AllKeyed (read (str_append directory total))
      (map (λ file. read (str_append directory file)) files) (record d { serial_port_list = [] }) tt
