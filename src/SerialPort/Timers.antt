-- ===== src/SerialPort/Timers.antt =====
-- The timers of a port: their names, and the precisions that a codec ends up with.
use Prim.Native.String.{String}
use text.Mathlib.Text.{◌==◌ as str_eq}
use text.Mathlib.TextEquality.{eq_iff}
use dbdky_gcc.Common.{
  ◌≡◌, refl, ap, sym, ◌∙◌, Option, none, some, List, [], ◌∷◌, All, arith, true, false,
  if◌then◌else◌, ◌||◌, Bool-cases, Option-cases, inl, inr,
}
use dbdky_gcc.Common.Dict.{Dict, lookup, assign, lookup-assign}
use dbdky_gcc.Common.Int.{ℤ}
use dbdky_gcc.Codec.{assign_all}
use dbdky_gcc.Registry.{
  empty, MonitorUnit, PortEntry, get_named, unit_key, new_monitor_unit, insert_monitor_unit,
  get_monitor_unit_by_name,
}
use dbdky_gcc.Registry.Keyed.{All-insert_new}
use dbdky_gcc.Registry.Lookup.{unit_key-full}
use dbdky_gcc.Registry.Precisions.{or_else}
use dbdky_gcc.SerialPort.{start_timers, seconds_of}

-- Each unit stands under its own key, which is not empty.
abbrev pub IsKeyed : String × MonitorUnit → Type 0
IsKeyed entry = (entry.0 ≡ unit_key entry.1) × (empty entry.0 ≡ false)

-- `insertMonitorUnit` keeps each unit under its own key.
pub insert_monitor_unit-IsKeyed :
    (name interval protocolname mac manufacturer cycleid ytime : String) (port : PortEntry)
    → All IsKeyed port.monitor_unit_list
    → All IsKeyed
        (insert_monitor_unit name interval protocolname mac manufacturer cycleid ytime
          port).monitor_unit_list
unfolding insert_monitor_unit
insert_monitor_unit-IsKeyed name interval protocolname mac manufacturer cycleid ytime port h =
    elim (Bool-cases (empty name || (empty protocolname || empty mac))) [
      | inl e ↦ rw e h
      | inr e ↦ rw e (
          All-insert_new IsKeyed (unit_key unit) unit port.monitor_unit_list
            (refl, unit_key-full unit (ground (arith, e))) h)
    ]
  where
    unit : MonitorUnit
    unit = new_monitor_unit name interval protocolname mac manufacturer cycleid ytime

-- A timer whose name leads to a unit of the list that has this name as its key.
abbrev pub Finds : Dict MonitorUnit → ℤ × String → Type 0
Finds units timer = (u : MonitorUnit) × (get_named timer.1 units ≡ some u) × (unit_key u ≡ timer.1)

Finds-cons :
    (entry : String × MonitorUnit) (units : Dict MonitorUnit) (timer : ℤ × String)
    → IsKeyed entry
    → Finds units timer
    → Finds (entry ∷ units) timer
unfolding get_named lookup
Finds-cons entry units timer keyed (u, found, key) = elim (Bool-cases (empty timer.1)) [
  | inl e ↦ absurd (cc (rw e at found))
  | inr e ↦ elim (Bool-cases (str_eq entry.0 timer.1)) [
    | inl same ↦ (entry.1, rw (e, same) refl, sym keyed.0 ∙ (eq_iff entry.0 timer.1).0 same)
    | inr other ↦ (u, rw (e, other) (rw e at found), key)
  ]
]

Finds-All :
    (entry : String × MonitorUnit) (units : Dict MonitorUnit) (timers : List (ℤ × String))
    → IsKeyed entry
    → All (Finds units) timers
    → All (Finds (entry ∷ units)) timers
Finds-All entry units [] keyed h = tt
Finds-All entry units (t ∷ timers) keyed h =
    (Finds-cons entry units t keyed h.0, Finds-All entry units timers keyed h.1)

Finds-first :
    (entry : String × MonitorUnit) (units : Dict MonitorUnit) (period : ℤ)
    → IsKeyed entry
    → Finds (entry ∷ units) (period, unit_key entry.1)
unfolding get_named lookup
Finds-first entry units period keyed =
    let full : empty (unit_key entry.1) ≡ false = ap empty (sym keyed.0) ∙ keyed.1 in
    let same : str_eq entry.0 (unit_key entry.1) ≡ true =
      (eq_iff entry.0 (unit_key entry.1)).1 keyed.0 in
    (entry.1, rw (full, same) refl, refl)

start_timers-All :
    (to_int : String → Option ℤ) (units : Dict MonitorUnit)
    → All IsKeyed units
    → All (Finds units) (start_timers to_int units)
unfolding start_timers
start_timers-All to_int [] h = tt
start_timers-All to_int ((key, unit) ∷ units) h = elim (Option-cases (to_int unit.interval)) [
  | inl e ↦
      rw (e, start_timers) (Finds-All (key, unit) units _ h.0 (start_timers-All to_int units h.1))
  | inr (interval, e) ↦
      rw (e, start_timers)
        (
          Finds-first (key, unit) units (seconds_of interval) h.0,
          Finds-All (key, unit) units _ h.0 (start_timers-All to_int units h.1),
        )
]

-- In a port whose units stand under their own keys, each timer of `startTimers` carries a name by
-- which `onQueryDataTimer` finds a unit with that key.
pub start_timers-Finds :
    (to_int : String → Option ℤ) (port : PortEntry)
    → All IsKeyed port.monitor_unit_list
    → All
        (λ timer.
          (u : MonitorUnit) × (get_monitor_unit_by_name timer.1 port ≡ some u)
          × (unit_key u ≡ timer.1))
        (start_timers to_int port.monitor_unit_list)
unfolding get_monitor_unit_by_name
start_timers-Finds to_int port h = start_timers-All to_int port.monitor_unit_list h

-- The last value of a list of pairs under a name.
abbrev pub last_of {ℓ} : {V : Type ℓ} → String → Dict V → Option V
last_of name [] = none
last_of name ((k, v) ∷ props) =
    or_else (last_of name props) (if str_eq k name then some v else none)

-- A codec keeps the precisions of earlier units: under a name it has the last of the given ones,
-- and where none is given, the one that it had.
pub lookup-assign_all {ℓ} :
    {V : Type ℓ} (name : String) (props m : Dict V)
    → lookup name (assign_all props m) ≡ or_else (last_of name props) (lookup name m)
unfolding assign_all
lookup-assign_all name [] m = refl
lookup-assign_all name ((k, v) ∷ props) m =
    rw (lookup-assign_all name props (assign k v m), lookup-assign k name v m)
      (ground (arith, Option-cases (last_of name props), eq_iff k name))
