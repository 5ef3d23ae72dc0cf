-- ===== src/LogFile/Rolling.antt =====
-- The files of a log hold its text in order, and roll over.
use mathlib.Core.Path.{subst}
use mathlib.Core.List.{append_assoc, append-nil}
use dbdky_gcc.Common.{
  ℕ, ◌+◌, ◌≤◌, ◌<◌, ◌≡◌, refl, sym, ap, ◌∙◌, ◌⊎◌, inl, inr, Option, none, some, List, [], ◌∷◌, ◌++◌,
  length, take, drop, ◌-◌, Bool, true, false, not, ◌==◌, ◌||◌, ltb, if◌then◌else◌, Bool-cases,
  length-append, take-append-drop, arith,
}
use dbdky_gcc.LogFile.{
  File, LogFile, write_rest, append_file, period_of, roll_file, new_log_file, check_time,
  after_append, append_unlocked, k_check_time_roll,
}

-- fwrite takes something each time until it took the whole text.
unfoldable pub TakesAll : List ℕ → List ℕ → Type 0
TakesAll [] rest = rest ≡ []
TakesAll (x ∷ answers) rest = (rest ≡ []) ⊎ ((0 < x) × TakesAll answers (drop x rest))

-- The text of the files, the latest first.
unfoldable pub texts : List File → List ℕ
texts [] = []
texts (f ∷ files) = texts files ++ f.content

abbrev pub logged : LogFile → List ℕ
logged l = texts l.closed ++ l.file.content

-- The files have ascending times in their names.
unfoldable pub AreOlder : ℕ → List File → Type 0
AreOlder n [] = Unit
AreOlder n (f ∷ files) = (f.name < n) × AreOlder f.name files

pub record IsValid (l : LogFile) : Type 0 where
  pub counted : l.file.written_bytes ≡ length l.file.content
  pub named : l.file.name ≡ l.last_roll
  pub period : l.start_of_period ≡ period_of l.last_roll
  pub older : AreOlder l.last_roll l.closed

is_over : (rest : List ℕ) → (length rest == 0) ≡ true → rest ≡ []
is_over [] h = refl
is_over (x ∷ rest) h = absurd (ground (arith, h))

write_rest_lem :
    (answers rest content : List ℕ)
    → TakesAll answers rest
    → write_rest answers rest content ≡ content ++ rest
unfolding write_rest TakesAll
write_rest_lem [] rest content h = sym (append-nil content) ∙ ap (λ r. content ++ r) (sym h)
write_rest_lem (x ∷ answers) rest content (inl e) =
    let z : ((length rest == 0) || (x == 0)) ≡ true = ground (arith, ap length e) in
    rw z (sym (append-nil content) ∙ ap (λ r. content ++ r) (sym e))
write_rest_lem (x ∷ answers) rest content (inr h) = elim (Bool-cases (length rest == 0)) [
  | inl over ↦
      let e = is_over rest over in
      rw over (sym (append-nil content) ∙ ap (λ r. content ++ r) (sym e))
  | inr more ↦
      let p : (x == 0) ≡ false = ground (arith, h.0) in
      rw (more, p)
        (write_rest_lem answers (drop x rest) (content ++ take x rest) h.1
          ∙ append_assoc content (take x rest) (drop x rest)
          ∙ ap (λ r. content ++ r) (take-append-drop x rest))
]

roll_file-texts : (now : ℕ) (l : LogFile) → logged (roll_file now l) ≡ logged l
unfolding roll_file texts
roll_file-texts now l = elim (Bool-cases (ltb l.last_roll now)) [
  | inl later ↦ rw (later, roll_file) (append-nil _)
  | inr same ↦ rw (same, roll_file) refl
]

roll_file-IsValid : (now : ℕ) (l : LogFile) → IsValid l → IsValid (roll_file now l)
unfolding roll_file AreOlder
roll_file-IsValid now l v = elim (Bool-cases (ltb l.last_roll now)) [
  | inl later ↦
      rw (later, roll_file)
        record {
          counted = refl;
          named = refl;
          period = refl;
          older = (
            ground (arith, later, v.named),
            subst (λ n. AreOlder n l.closed) (sym v.named) v.older,
          );
        }
  | inr same ↦ rw (same, roll_file) v
]

-- A log after a step: it is valid, holds the same text, and its file is within the size, unless the
-- second of the last roll is not over.
record Keeps (roll_now : ℕ) (l r : LogFile) : Type 0 where
  valid : IsValid r
  texts : logged r ≡ logged l
  small : (r.file.written_bytes ≤ r.roll_size) ⊎ (roll_now ≤ r.last_roll)

roll_file-Keeps : (now : ℕ) (l : LogFile) → IsValid l → Keeps now l (roll_file now l)
unfolding roll_file
roll_file-Keeps now l v = record {
  valid = roll_file-IsValid now l v;
  texts = roll_file-texts now l;
  small = elim (Bool-cases (ltb l.last_roll now)) [
    | inl later ↦ rw (later, roll_file) (inl (omega arith))
    | inr same ↦ rw (same, roll_file) (inr (ground (arith, same)))
  ];
}

stays-Keeps :
    (now count last_flush : ℕ) (l : LogFile)
    → l.file.written_bytes ≤ l.roll_size
    → IsValid l
    → Keeps now l (record l { count = count; last_flush = last_flush })
stays-Keeps now count last_flush l h v = record {
  valid = record { counted = v.counted; named = v.named; period = v.period; older = v.older };
  texts = refl;
  small = inl h;
}

if-Keeps :
    (b : Bool) (now : ℕ) (l r t : LogFile)
    → (b ≡ true → Keeps now l r)
    → (b ≡ false → Keeps now l t)
    → Keeps now l (if b then r else t)
if-Keeps true now l r t f g = f refl
if-Keeps false now l r t f g = g refl

check_time-Keeps :
    (now roll_now : ℕ) (l : LogFile)
    → l.file.written_bytes ≤ l.roll_size
    → IsValid l
    → Keeps roll_now l (check_time now roll_now l)
unfolding check_time
check_time-Keeps now roll_now l h v =
    if-Keeps (not (period_of now == l.start_of_period)) roll_now l _ _
      (λ _. roll_file-Keeps roll_now l v)
      (λ _.
        if-Keeps (ltb l.flush_interval (now - l.last_flush)) roll_now l _ _
          (λ _. stays-Keeps roll_now l.count now l h v)
          (λ _. stays-Keeps roll_now l.count l.last_flush l h v))

after_append-Keeps :
    (now roll_now : ℕ) (l : LogFile) → IsValid l → Keeps roll_now l (after_append now roll_now l)
unfolding after_append
after_append-Keeps now roll_now l v =
    if-Keeps (ltb l.roll_size l.file.written_bytes) roll_now l _ _
      (λ _. roll_file-Keeps roll_now l v)
      (λ within.
        let h : l.file.written_bytes ≤ l.roll_size = ground (arith, within) in
        if-Keeps (ltb k_check_time_roll l.count) roll_now l _ _
          (λ _.
            let k =
              check_time-Keeps now roll_now (record l { count = 0 }) h
                (stays-Keeps roll_now 0 l.last_flush l h v).valid in
            record { valid = k.valid; texts = k.texts; small = k.small })
          (λ _. stays-Keeps roll_now (l.count + 1) l.last_flush l h v))

-- What fwrite takes of a line, the first time and in the loop.
abbrev pub TakesLine : ℕ → List ℕ → List ℕ → Type 0
TakesLine first answers logline = TakesAll answers (drop first logline)

append_file-content :
    (first : ℕ) (answers logline : List ℕ) (f : File)
    → TakesLine first answers logline
    → (append_file first answers logline f).content ≡ f.content ++ logline
unfolding append_file
append_file-content first answers logline f h =
    write_rest_lem answers (drop first logline) (f.content ++ take first logline) h
    ∙ append_assoc f.content (take first logline) (drop first logline)
    ∙ ap (λ r. f.content ++ r) (take-append-drop first logline)

append_unlocked-Logs :
    (first : ℕ) (answers logline : List ℕ) (now roll_now : ℕ) (l : LogFile)
    → IsValid l
    → TakesLine first answers logline
    → let r = append_unlocked first answers logline now roll_now l in
      IsValid r
      × (logged r ≡ logged l ++ logline)
      × ((r.file.written_bytes ≤ r.roll_size) ⊎ (roll_now ≤ r.last_roll))
unfolding append_unlocked append_file
append_unlocked-Logs first answers logline now roll_now l v h =
    let content = append_file-content first answers logline l.file h in
    let m = record l { file = append_file first answers logline l.file } in
    let valid : IsValid m = record {
      counted = omega (arith, v.counted, ap length content, length-append l.file.content logline);
      named = v.named;
      period = v.period;
      older = v.older;
    } in
    let k = after_append-Keeps now roll_now m valid in
    (
      k.valid,
      k.texts
          ∙ ap (λ c. texts l.closed ++ c) content
          ∙ sym (append_assoc (texts l.closed) l.file.content logline),
      k.small,
    )

-- What a log is and holds when it is opened.
abbrev Opens : List ℕ → Option LogFile → Type 0
Opens text none = Unit
Opens text (some l) = IsValid l × (logged l ≡ text)

new_log_file-Opens :
    (roll_size flush_interval now : ℕ) → Opens [] (new_log_file roll_size flush_interval now)
unfolding new_log_file AreOlder texts
new_log_file-Opens roll_size flush_interval now = elim (Bool-cases (ltb 0 now)) [
  | inl later ↦ rw later (record { counted = refl; named = refl; period = refl; older = tt }, refl)
  | inr never ↦ rw never tt
]

-- A log that was opened and appended to, with the text of all its lines.
pub data Happens (roll_size flush_interval : ℕ) : LogFile → List ℕ → Type 0 where
  opened :
      (now : ℕ) (l : LogFile)
      → new_log_file roll_size flush_interval now ≡ some l
      → Happens roll_size flush_interval l []
  appended :
      {l : LogFile} {text : List ℕ}
      → (first : ℕ) (answers logline : List ℕ) (now roll_now : ℕ) → TakesLine first answers logline
      → Happens roll_size flush_interval l text
      → Happens roll_size flush_interval
          (append_unlocked first answers logline now roll_now l)
          (text ++ logline)

Happens-Opens :
    (roll_size flush_interval : ℕ) {l : LogFile} {text : List ℕ}
    → Happens roll_size flush_interval l text
    → Opens text (some l)
Happens-Opens roll_size flush_interval (opened now l e) =
    subst (Opens []) e (new_log_file-Opens roll_size flush_interval now)
Happens-Opens roll_size flush_interval (appended first answers logline now roll_now h s) =
    let o = Happens-Opens roll_size flush_interval s in
    let a = append_unlocked-Logs first answers logline now roll_now _ o.0 h in
    (a.0, a.1 ∙ ap (λ c. c ++ logline) o.1)

-- Where fwrite takes each whole line, in pieces of any size, a log that was opened and appended to, and
-- is appended to once more, holds in its files, in the order of their opening, the text of all lines, and
-- is valid: the bytes of the file in use are counted, the files have ascending times in their names, the
-- last of them that of the last roll, whose period is the one kept. The file in use is within the
-- size, unless the second of its opening is not over at the time of the roll.
pub append_unlocked-Happens :
    (roll_size flush_interval : ℕ) (l : LogFile) (text : List ℕ)
    → Happens roll_size flush_interval l text
    → (first : ℕ) (answers logline : List ℕ) (now roll_now : ℕ) → TakesLine first answers logline
    → let r = append_unlocked first answers logline now roll_now l in
      IsValid r
      × (logged r ≡ text ++ logline)
      × ((r.file.written_bytes ≤ r.roll_size) ⊎ (roll_now ≤ r.last_roll))
append_unlocked-Happens roll_size flush_interval l text s first answers logline now roll_now h =
    let o = Happens-Opens roll_size flush_interval s in
    let a = append_unlocked-Logs first answers logline now roll_now l o.0 h in
    (a.0, a.1 ∙ ap (λ c. c ++ logline) o.1, a.2)
