-- ===== src/EventLoop/Phases.antt =====
-- Where the thread of the loop is, and the order of the functors at an insertion.
use mathlib.Core.List.{append_assoc}
use dbdky_gcc.Common.{sym, ◌∙◌, ap, ℕ, ◌≡◌, refl, List, [], ◌∷◌, ◌++◌, Bool, true, false, not, ◌&&◌}
use dbdky_gcc.EventLoop.Moves.{
  Phase, stopped, polling, handling, calling, is_stopped, is_polling, is_handling, is_calling,
  has_called, left,
}

unfoldable pub is_nil : {A : Type 0} → List A → Bool
is_nil [] = true
is_nil (x ∷ l) = false

pub left_nil : (p : Phase) → is_calling p ≡ false → left p ≡ []
unfolding left is_calling
left_nil stopped h = refl
left_nil polling h = refl
left_nil handling h = refl
left_nil (calling functors) h = absurd (cc h)

pub stopped_only : (p : Phase) → is_stopped p ≡ true → p ≡ stopped
unfolding is_stopped
stopped_only stopped h = refl
stopped_only polling h = absurd (cc h)
stopped_only handling h = absurd (cc h)
stopped_only (calling functors) h = absurd (cc h)

pub polling_only : (p : Phase) → is_polling p ≡ true → p ≡ polling
unfolding is_polling
polling_only stopped h = absurd (cc h)
polling_only polling h = refl
polling_only handling h = absurd (cc h)
polling_only (calling functors) h = absurd (cc h)

pub handling_only : (p : Phase) → is_handling p ≡ true → p ≡ handling
unfolding is_handling
handling_only stopped h = absurd (cc h)
handling_only polling h = absurd (cc h)
handling_only handling h = refl
handling_only (calling functors) h = absurd (cc h)

pub drained_only : (p : Phase) → has_called p ≡ true → p ≡ calling []
unfolding has_called
drained_only stopped h = absurd (cc h)
drained_only polling h = absurd (cc h)
drained_only handling h = absurd (cc h)
drained_only (calling []) h = refl
drained_only (calling (f ∷ functors)) h = absurd (cc h)

pub calling_next :
    (p : Phase)
    → (is_calling p && not (has_called p)) ≡ true
    → (cb : ℕ) × (functors : List ℕ) × p ≡ calling (cb ∷ functors)
unfolding is_calling has_called
calling_next stopped h = absurd (cc h)
calling_next polling h = absurd (cc h)
calling_next handling h = absurd (cc h)
calling_next (calling []) h = absurd (cc h)
calling_next (calling (cb ∷ functors)) h = (cb, functors, refl)

pub stopped_else :
    (p : Phase)
    → is_polling p ≡ false
    → is_handling p ≡ false
    → is_calling p ≡ false
    → is_stopped p ≡ true
unfolding is_handling is_calling is_polling is_stopped
stopped_else stopped h k l = refl
stopped_else polling h k l = absurd (cc h)
stopped_else handling h k l = absurd (cc k)
stopped_else (calling functors) h k l = absurd (cc l)

pub order-push :
    (ran todo pending queued : List ℕ) (cb : ℕ)
    → ran ++ (todo ++ pending) ≡ queued
    → ran ++ (todo ++ (pending ++ cb ∷ [])) ≡ queued ++ cb ∷ []
order-push ran todo pending queued cb h =
    ap (λ l. ran ++ l) (sym (append_assoc todo pending (cb ∷ [])))
    ∙ sym (append_assoc ran (todo ++ pending) (cb ∷ []))
    ∙ ap (λ l. l ++ cb ∷ []) h
