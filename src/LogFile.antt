-- ===== src/LogFile.antt =====
-- src/utils/LogFile.h and src/utils/LogFile.cpp: the log that goes from file to file. What fwrite and
-- time answer are arguments; a file is known by the time in its name, which has the second. Each file
-- can be opened.
pub mod Rolling
use dbdky_gcc.Common.{
  ℕ, suc, ◌+◌, ◌-◌, ◌*◌, ◌/◌, Option, none, some, List, [], ◌∷◌, ◌++◌, length, take, drop, Bool,
  true, false, not, ◌==◌, ◌||◌, ltb, if◌then◌else◌,
}

abbrev pub k_check_time_roll : ℕ
k_check_time_roll = 1024

abbrev pub k_roll_per_seconds : ℕ
k_roll_per_seconds = 60 * 60 * 24

-- `LogFile::File`: `content` is what fwrite took.
pub record File : Type 0 where
  pub name : ℕ
  pub content : List ℕ
  pub written_bytes : ℕ

-- `closed` holds the files before the one in use, the latest first.
pub record LogFile : Type 0 where
  pub roll_size : ℕ
  pub flush_interval : ℕ
  pub count : ℕ
  pub start_of_period : ℕ
  pub last_roll : ℕ
  pub last_flush : ℕ
  pub file : File
  pub closed : List File

-- The loop of `File::append`, for the answers of fwrite and the text that is left.
unfoldable pub write_rest : List ℕ → List ℕ → List ℕ → List ℕ
write_rest [] rest content = content
write_rest (x ∷ answers) rest content =
    let later = write_rest answers (drop x rest) (content ++ take x rest) in
    if (length rest == 0) || (x == 0) then content else later

-- `File::append`: the first call of fwrite is made for an empty text, too.
unfoldable pub append_file : ℕ → List ℕ → List ℕ → File → File
append_file first answers logline f = record f {
  content = write_rest answers (drop first logline) (f.content ++ take first logline);
  written_bytes = f.written_bytes + length logline;
}

abbrev pub period_of : ℕ → ℕ
period_of now = now / k_roll_per_seconds * k_roll_per_seconds

-- `rollFile`, at the time that getLogFileName finds.
unfoldable pub roll_file : ℕ → LogFile → LogFile
roll_file now l =
    if ltb l.last_roll now
    then record l {
      last_roll = now;
      last_flush = now;
      start_of_period = period_of now;
      file = record { name = now; content = []; written_bytes = 0 };
      closed = l.file ∷ l.closed;
    }
    else l

-- The constructor; `none` is the null pointer of a file that was never opened.
unfoldable pub new_log_file : ℕ → ℕ → ℕ → Option LogFile
new_log_file roll_size flush_interval now =
    if ltb 0 now
    then some (record {
      roll_size = roll_size;
      flush_interval = flush_interval;
      count = 0;
      start_of_period = period_of now;
      last_roll = now;
      last_flush = now;
      file = record { name = now; content = []; written_bytes = 0 };
      closed = [];
    })
    else none

-- The part of `append_unlocked` that looks at the time, `now`; `roll_now` is the time of a roll.
unfoldable pub check_time : ℕ → ℕ → LogFile → LogFile
check_time now roll_now l =
    if not (period_of now == l.start_of_period)
    then roll_file roll_now l
    else if ltb l.flush_interval (now - l.last_flush)
    then record l { last_flush = now }
    else l

-- `append_unlocked` behind the call of `File::append`.
unfoldable pub after_append : ℕ → ℕ → LogFile → LogFile
after_append now roll_now l =
    if ltb l.roll_size l.file.written_bytes
    then roll_file roll_now l
    else if ltb k_check_time_roll l.count
    then check_time now roll_now (record l { count = 0 })
    else record l { count = l.count + 1 }

unfoldable pub append_unlocked : ℕ → List ℕ → List ℕ → ℕ → ℕ → LogFile → LogFile
append_unlocked first answers logline now roll_now l =
    after_append now roll_now (record l { file = append_file first answers logline l.file })
