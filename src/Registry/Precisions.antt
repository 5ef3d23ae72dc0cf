-- ===== src/Registry/Precisions.antt =====
-- Which precision the configuration map of a monitor unit holds under a name.
use Prim.Native.String.{String}
use text.Mathlib.Text.{◌==◌ as str_eq}
use text.Mathlib.TextEquality.{eq_iff}
use dbdky_gcc.Common.{
  ◌≡◌, refl, ap, sym, ◌∙◌, Option, none, some, [], ◌∷◌, if◌then◌else◌, arith, Option-cases, inl,
  inr,
}
use dbdky_gcc.Common.Dict.{Dict, lookup, assign, lookup-assign}
use dbdky_gcc.Registry.{
  Param, MeasurePoint, MonitorUnit, collect_params, collect_points, get_param_config_list,
}

abbrev pub or_else {ℓ} : {A : Type ℓ} → Option A → Option A → Option A
or_else none b = b
or_else (some a) b = some a

or_else_assoc {ℓ} :
    {A : Type ℓ} (a b c : Option A) → or_else (or_else a b) c ≡ or_else a (or_else b c)
or_else_assoc none b c = refl
or_else_assoc (some a) b c = refl

or_else-none {ℓ} : {A : Type ℓ} (a : Option A) → or_else a none ≡ a
or_else-none none = refl
or_else-none (some a) = refl

module _ {F : Type 0} (lexical_cast : String → Option F) (name : String) where
  -- The last parameter of the name whose precision is a number, in the order of the keys.
  abbrev pub last_param : Dict Param → Option F
  last_param [] = none
  last_param ((key, p) ∷ params) =
      or_else (last_param params) (if str_eq p.name name then lexical_cast p.precision else none)

  abbrev pub last_point : Dict MeasurePoint → Option F
  last_point [] = none
  last_point ((key, mp) ∷ points) = or_else (last_point points) (last_param mp.param_list)

  lookup-collect_params :
      (params : Dict Param) (ret : Dict F)
      → lookup name (collect_params lexical_cast params ret)
        ≡ or_else (last_param params) (lookup name ret)
  unfolding collect_params
  lookup-collect_params [] ret = refl
  lookup-collect_params ((key, p) ∷ params) ret = elim (Option-cases (lexical_cast p.precision)) [
    | inl e ↦
        rw (e, lookup-collect_params params ret)
          (ground (arith, Option-cases (last_param params), eq_iff p.name name))
    | inr (v, e) ↦
        rw (e, lookup-collect_params params (assign p.name v ret), lookup-assign p.name name v ret)
          (ground (arith, Option-cases (last_param params), eq_iff p.name name))
  ]

  lookup-collect_points :
      (points : Dict MeasurePoint) (ret : Dict F)
      → lookup name (collect_points lexical_cast points ret)
        ≡ or_else (last_point points) (lookup name ret)
  unfolding collect_points
  lookup-collect_points [] ret = refl
  lookup-collect_points ((key, mp) ∷ points) ret =
      lookup-collect_points points (collect_params lexical_cast mp.param_list ret)
      ∙ ap (or_else (last_point points)) (lookup-collect_params mp.param_list ret)
      ∙ sym (or_else_assoc (last_point points) (last_param mp.param_list) (lookup name ret))

  -- The map of `getParamConfigList` holds, under each name, the precision of the last parameter of
  -- that name, through the points and their parameters in the order of the keys, whose precision
  -- is a number, and nothing where there is none.
  pub get_param_config_list_lem :
      (u : MonitorUnit)
      → lookup name (get_param_config_list lexical_cast u) ≡ last_point u.measure_point_list
  unfolding get_param_config_list lookup
  get_param_config_list_lem u =
      lookup-collect_points u.measure_point_list [] ∙ or_else-none (last_point u.measure_point_list)
