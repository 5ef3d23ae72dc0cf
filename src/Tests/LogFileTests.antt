-- ===== src/Tests/LogFileTests.antt =====
-- A log whose files hold three bytes.
use dbdky_gcc.Common.{◌≡◌, refl, ℕ, ◌≤◌, ◌⊎◌, inr, List, [], ◌∷◌, arith}
use dbdky_gcc.LogFile.{
  LogFile, new_log_file, append_unlocked, append_file, write_rest, after_append, roll_file,
}
use dbdky_gcc.LogFile.Rolling.{
  IsValid, logged, TakesAll, TakesLine, Happens, opened, appended, append_unlocked-Happens,
}

abbrev empty : LogFile
empty = record {
  roll_size = 3;
  flush_interval = 5;
  count = 0;
  start_of_period = 0;
  last_roll = 10;
  last_flush = 10;
  file = record { name = 10; content = []; written_bytes = 0 };
  closed = [];
}

empty-Happens : Happens 3 5 empty []
unfolding new_log_file
empty-Happens = opened 10 empty refl

-- fwrite takes the line in two pieces.
abbrev line : List ℕ
line = 1 ∷ 2 ∷ 3 ∷ 4 ∷ []

line-TakesLine : TakesLine 1 (3 ∷ []) line
unfolding TakesAll
line-TakesLine = inr (omega arith, refl)

abbrev rolled : LogFile
rolled = append_unlocked 1 (3 ∷ []) line 12 12 empty

-- The line is over the size, so that the file is closed and the next one is empty.
rolled_file : rolled.file ≡ record { name = 12; content = []; written_bytes = 0 }
unfolding append_unlocked append_file write_rest after_append roll_file
rolled_file = refl

append_unlocked-Happens_example :
    let r = append_unlocked 1 (3 ∷ []) line 12 12 rolled in
    IsValid r
    × (logged r ≡ 1 ∷ 2 ∷ 3 ∷ 4 ∷ 1 ∷ 2 ∷ 3 ∷ 4 ∷ [])
    × ((r.file.written_bytes ≤ r.roll_size) ⊎ (12 ≤ r.last_roll))
append_unlocked-Happens_example =
    append_unlocked-Happens 3 5 rolled line
      (appended 1 (3 ∷ []) line 12 12 line-TakesLine empty-Happens) 1 (3 ∷ []) line 12 12
      line-TakesLine
