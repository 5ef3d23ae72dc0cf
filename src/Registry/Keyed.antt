-- ===== src/Registry/Keyed.antt =====
-- What holds of each entry of a map stays so when entries are added and replaced.
use Prim.Native.String.{String}
use text.Mathlib.Text.{◌==◌ as str_eq}
use text.Mathlib.TextEquality.{eq_iff}
use mathlib.Core.Path.{subst}
use dbdky_gcc.Common.{◌≡◌, some, [], ◌∷◌, All, Bool-cases, Option-cases, inl, inr}
use dbdky_gcc.Common.Dict.{Dict, lookup, assign, before}
use dbdky_gcc.Registry.{empty, insert_new, get_named}

pub All-assign {ℓ κ} :
    {V : Type ℓ} (P : String × V → Type κ) (k : String) (v : V) (m : Dict V)
    → P (k, v)
    → All P m
    → All P (assign k v m)
unfolding assign
All-assign P k v [] h all = (h, tt)
All-assign P k v ((j, w) ∷ m) h all = elim (Bool-cases (str_eq j k)) [
  | inl e ↦ rw e (h, all.1)
  | inr e ↦ elim (Bool-cases (before k j)) [
    | inl l ↦ rw (e, l) (h, all)
    | inr l ↦ rw (e, l) (all.0, All-assign P k v m h all.1)
  ]
]

pub All-insert_new {ℓ κ} :
    {V : Type ℓ} (P : String × V → Type κ) (k : String) (v : V) (m : Dict V)
    → P (k, v)
    → All P m
    → All P (insert_new k v m)
unfolding insert_new
All-insert_new P k v m h all = elim (Option-cases (lookup k m)) [
  | inl e ↦ rw (e, insert_new) (All-assign P k v m h all)
  | inr (w, e) ↦ rw (e, insert_new) all
]

-- An entry that is found has what every entry has.
All-lookup {ℓ κ} :
    {V : Type ℓ} (P : String × V → Type κ) (k : String) (v : V) (m : Dict V)
    → All P m
    → lookup k m ≡ some v
    → P (k, v)
unfolding lookup
All-lookup P k v [] all h = absurd (cc h)
All-lookup P k v ((j, w) ∷ m) all h = elim (Bool-cases (str_eq j k)) [
  | inl e ↦
      let key : j ≡ k = (eq_iff j k).0 e in
      let is : w ≡ v = cc (rw e at h) in subst P (λ i. (key i, is i)) all.0
  | inr e ↦ All-lookup P k v m all.1 (rw e at h)
]

pub All-get_named {ℓ κ} :
    {V : Type ℓ} (P : String × V → Type κ) (k : String) (v : V) (m : Dict V)
    → All P m
    → get_named k m ≡ some v
    → P (k, v)
unfolding get_named
All-get_named P k v m all h = elim (Bool-cases (empty k)) [
  | inl e ↦ absurd (cc (rw e at h))
  | inr e ↦ All-lookup P k v m all (rw e at h)
]
