-- ===== src/Loading/Search.antt =====
-- What `getFullParams` finds, against the list of all that fits.
use Prim.Native.String.{String}
use text.Mathlib.Text.{◌==◌ as str_eq}
use text.Mathlib.TextEquality.{eq_iff}
use dbdky_gcc.Common.{
  ◌≡◌, refl, sym, ap, ◌∙◌, Option, none, some, List, [], ◌∷◌, ◌++◌, Bool, true, false, ◌&&◌, arith,
  Bool-cases, inl, inr, ◌>>=◌, if◌then◌else◌,
}
use mathlib.Core.List.{append_assoc}
use dbdky_gcc.Registry.{Param}
use dbdky_gcc.Loading.{
  or_later, found, fill, settled, full_params, inside, search_params, search_points, search_devices,
  get_full_params,
}
use dbdky_gcc.Loading.Xml.{Node, Nodes, nil, cons, value, attribute, children, first_child}

abbrev to_list : Nodes → List Node
to_list nil = []
to_list (cons n l) = n ∷ to_list l

abbrev says : Option String → String → Bool
says none wanted = false
says (some v) wanted = str_eq v wanted

-- The nodes of a name whose attribute is the wanted one.
abbrev pub keep : String → String → String → List Node → List Node
keep name key wanted [] = []
keep name key wanted (n ∷ l) =
    if str_eq (value n) name && says (attribute key n) wanted
    then n ∷ keep name key wanted l
    else keep name key wanted l

abbrev pub below : List Node → List Node
below [] = []
below (n ∷ l) = to_list (children n) ++ below l

-- All elements that fit, in the order of the file.
abbrev pub fitting : String → String → String → Nodes → List Node
fitting deviceid id paramname nodes =
    keep "param" "name" paramname
      (below (keep "MeasurePoint" "name" id (below (keep "Device" "id" deviceid (to_list nodes)))))

abbrev pub first_filled : Param → List Node → Option (Option Param)
first_filled param [] = some none
first_filled param (n ∷ l) = found (fill param n)

abbrev pub Has : String → Node → Type 0
Has key n = (v : String) × (attribute key n ≡ some v)

-- The attributes that are read are there.
abbrev pub TidyParams : Nodes → Type 0
TidyParams nil = Unit
TidyParams (cons n l) = (str_eq (value n) "param" ≡ true → Has "name" n) × TidyParams l

abbrev pub TidyPoints : Nodes → Type 0
TidyPoints nil = Unit
TidyPoints (cons n l) =
    (str_eq (value n) "MeasurePoint" ≡ true → Has "name" n) × TidyParams (children n) × TidyPoints l

abbrev pub TidyDevices : Nodes → Type 0
TidyDevices nil = Unit
TidyDevices (cons n l) = Has "id" n × TidyPoints (children n) × TidyDevices l

keep-append :
    (name key wanted : String) (xs ys : List Node)
    → keep name key wanted (xs ++ ys) ≡ keep name key wanted xs ++ keep name key wanted ys
keep-append name key wanted [] ys = refl
keep-append name key wanted (n ∷ xs) ys =
    elim (Bool-cases (str_eq (value n) name && says (attribute key n) wanted)) [
      | inl e ↦ rw (e, keep-append name key wanted xs ys) refl
      | inr e ↦ rw (e, keep-append name key wanted xs ys) refl
    ]

below-append : (xs ys : List Node) → below (xs ++ ys) ≡ below xs ++ below ys
below-append [] ys = refl
below-append (n ∷ xs) ys =
    rw (below-append xs ys) (sym (append_assoc (to_list (children n)) (below xs) (below ys)))

first_filled-append :
    (param : Param) (xs ys : List Node)
    → first_filled param (xs ++ ys) ≡ or_later (first_filled param xs) (first_filled param ys)
first_filled-append param [] ys = refl
first_filled-append param (n ∷ xs) ys = go (fill param n)
  where
    go : (x : Option Param) → found x ≡ or_later (found x) (first_filled param ys)
    go none = refl
    go (some p) = refl

eq_comm : (a b : String) → str_eq a b ≡ str_eq b a
eq_comm a b = ground (arith, eq_iff a b, eq_iff b a)

module _ (paramname : String) (param : Param) where
  search_params_lem :
      (l : Nodes)
      → TidyParams l
      → search_params paramname param l
        ≡ first_filled param (keep "param" "name" paramname (to_list l))
  unfolding search_params
  search_params_lem nil h = refl
  search_params_lem (cons n l) h = elim (Bool-cases (str_eq (value n) "param")) [
    | inr e ↦ rw e (search_params_lem l h.1)
    | inl e ↦
        let (v, has) = h.0 e in
        elim (Bool-cases (str_eq v paramname)) [
          | inl f ↦ rw (e, has, f) refl
          | inr f ↦ rw (e, has, f) (search_params_lem l h.1)
        ]
  ]

  -- The parameters below a list of points, and the points below a list of devices.
  abbrev of_points : List Node → List Node
  of_points points = keep "param" "name" paramname (below points)

  of_points-cons :
      (n : Node) (points : List Node)
      → first_filled param (of_points (n ∷ points))
        ≡ or_later
            (first_filled param (keep "param" "name" paramname (to_list (children n))))
            (first_filled param (of_points points))
  of_points-cons n points =
      ap (first_filled param)
        (keep-append "param" "name" paramname (to_list (children n)) (below points))
      ∙ first_filled-append param (keep "param" "name" paramname (to_list (children n)))
          (of_points points)

  search_points_lem :
      (id : String) (l : Nodes)
      → TidyPoints l
      → search_points id paramname param l
        ≡ first_filled param (of_points (keep "MeasurePoint" "name" id (to_list l)))
  unfolding search_points
  search_points_lem id nil h = refl
  search_points_lem id (cons n l) h = elim (Bool-cases (str_eq (value n) "MeasurePoint")) [
    | inr e ↦ rw e (search_points_lem id l h.2)
    | inl e ↦
        let (v, has) = h.0 e in
        elim (Bool-cases (str_eq v id)) [
          | inl f ↦
              rw (e, has, f, search_params_lem (children n) h.1, search_points_lem id l h.2)
                (sym (of_points-cons n (keep "MeasurePoint" "name" id (to_list l))))
          | inr f ↦ rw (e, has, f) (search_points_lem id l h.2)
        ]
  ]

  abbrev of_devices : String → List Node → List Node
  of_devices id devices = of_points (keep "MeasurePoint" "name" id (below devices))

  of_devices-cons :
      (id : String) (n : Node) (devices : List Node)
      → first_filled param (of_devices id (n ∷ devices))
        ≡ or_later
            (first_filled param (of_points (keep "MeasurePoint" "name" id (to_list (children n)))))
            (first_filled param (of_devices id devices))
  of_devices-cons id n devices =
      let points = keep "MeasurePoint" "name" id in
      ap (λ x. first_filled param (of_points x))
        (keep-append "MeasurePoint" "name" id (to_list (children n)) (below devices))
      ∙ ap (λ x. first_filled param (keep "param" "name" paramname x))
          (below-append (points (to_list (children n))) (points (below devices)))
      ∙ ap (first_filled param) (
          keep-append "param" "name" paramname (below (points (to_list (children n))))
            (below (points (below devices))))
      ∙ first_filled-append param (of_points (points (to_list (children n))))
          (of_devices id devices)

  search_devices_lem :
      (deviceid id : String) (l : Nodes)
      → TidyDevices l
      → search_devices deviceid id paramname param l
        ≡ first_filled param (fitting deviceid id paramname l)
  unfolding search_devices
  search_devices_lem deviceid id nil h = refl
  search_devices_lem deviceid id (cons n l) h =
      let (v, has) = h.0 in
      elim (Bool-cases (str_eq (value n) "Device")) [
        | inr e ↦ rw (e, has) (search_devices_lem deviceid id l h.2)
        | inl e ↦ elim (Bool-cases (str_eq v deviceid)) [
          | inl f ↦
              rw
                (
                  e,
                  has,
                  eq_comm deviceid v,
                  f,
                  search_points_lem id (children n) h.1,
                  search_devices_lem deviceid id l h.2,
                )
                (sym (of_devices-cons id n (keep "Device" "id" deviceid (to_list l))))
          | inr f ↦ rw (e, has, eq_comm deviceid v, f) (search_devices_lem deviceid id l h.2)
        ]
      ]

-- The nodes in which `getFullParams` looks.
abbrev pub substation : Nodes → Option Nodes
substation nodes =
    inside (first_child "DataConfig" nodes) >>= λ config. inside (first_child "Substation" config)

-- In a document whose devices have an id, and whose points and parameters have names, `getFullParams`
-- fills the parameter from the first element that fits, in the order of the file, among those with the
-- name of the parameter below the points of that id below the devices of that id, and leaves it as it
-- is where none fits.
pub get_full_params-first :
    (deviceid id paramname : String) (param : Param) (nodes devices : Nodes)
    → substation nodes ≡ some devices
    → TidyDevices devices
    → get_full_params deviceid id paramname param (some nodes)
      ≡ settled param (first_filled param (fitting deviceid id paramname devices))
unfolding get_full_params
get_full_params-first deviceid id paramname param nodes devices e h =
    ap (full_params deviceid id paramname param) e
    ∙ ap (settled param) (search_devices_lem paramname param deviceid id devices h)

abbrev pub append_nodes : Nodes → Nodes → Nodes
append_nodes nil ys = ys
append_nodes (cons n l) ys = cons n (append_nodes l ys)

search_devices-aborts :
    (deviceid id paramname : String) (param : Param) (l : Nodes) (n : Node) (rest : Nodes)
    → TidyDevices l
    → keep "Device" "id" deviceid (to_list l) ≡ []
    → attribute "id" n ≡ none
    → search_devices deviceid id paramname param (append_nodes l (cons n rest)) ≡ none
unfolding search_devices
search_devices-aborts deviceid id paramname param nil n rest h none_fits missing = rw missing refl
search_devices-aborts deviceid id paramname param (cons m l) n rest h none_fits missing =
    let (v, has) = h.0 in
    let later = search_devices-aborts deviceid id paramname param l n rest h.2 in
    elim (Bool-cases (str_eq (value m) "Device")) [
      | inr e ↦ rw (e, has) (later (rw e at none_fits) missing)
      | inl e ↦ elim (Bool-cases (str_eq v deviceid)) [
        | inl f ↦ absurd (cc (rw (e, has, f) at none_fits))
        | inr f ↦ rw (e, has, eq_comm deviceid v, f) (later (rw (e, has, f) at none_fits) missing)
      ]
    ]

-- An element or a comment without an id among the devices stops the program, also where it is no
-- device, when the elements before it have ids, their points and parameters names, and no device among
-- them has the wanted id.
pub get_full_params-aborts :
    (deviceid id paramname : String) (param : Param) (nodes l : Nodes) (n : Node) (rest : Nodes)
    → substation nodes ≡ some (append_nodes l (cons n rest))
    → TidyDevices l
    → keep "Device" "id" deviceid (to_list l) ≡ []
    → attribute "id" n ≡ none
    → get_full_params deviceid id paramname param (some nodes) ≡ none
unfolding get_full_params
get_full_params-aborts deviceid id paramname param nodes l n rest e h none_fits missing =
    ap (full_params deviceid id paramname param) e
    ∙ ap (settled param)
        (search_devices-aborts deviceid id paramname param l n rest h none_fits missing)
