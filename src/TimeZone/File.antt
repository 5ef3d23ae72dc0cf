-- ===== src/TimeZone/File.antt =====
-- `readTimeZoneFile` of src/utils/TimeZone.cpp: the file is the list of its bytes, and `throw` keeps what
-- was stored before.
use dbdky_gcc.Common.{
  ℕ, zero, suc, Option, none, some, List, [], ◌∷◌, ◌++◌, Bool, true, not, ◌==◌, leb, length, take,
  drop, if◌then◌else◌, get_elem?,
}
use dbdky_gcc.Common.Int.{ℤ, pos, negsuc, pos_part, ◌+ℤ◌, to_int32}
use dbdky_gcc.Buffer.Integers.{from_be}
use dbdky_gcc.TimeZone.{Data}

-- The exceptions that are caught, all of them subclasses of `logic_error`.
pub data LogicError : Type 0 where
  no_enough_data bad_int32 bad_uint8 bad_head length_error : LogicError

-- `stuck` is undefined behaviour.
pub data Outcome (A : Type 0) : Type 0 where
  read : A → List ℕ → Data → Outcome A
  thrown : LogicError → Data → Outcome A
  stuck : Outcome A

-- What reads from the file and stores into the data.
abbrev pub Reader : Type 0 → Type 0
Reader A = List ℕ → Data → Outcome A

infixl 5 ◌>>=◌ ◌>>◌
unfoldable pub ◌>>=◌ : {A B : Type 0} → Reader A → (A → Reader B) → Reader B
(m >>= f) file zone = elim (m file zone) [
  | read a rest z ↦ f a rest z
  | thrown e z ↦ thrown e z
  | stuck ↦ stuck
]

unfoldable pub ◌>>◌ : {A B : Type 0} → Reader A → Reader B → Reader B
m >> k = m >>= λ _. k

unfoldable pub throw : {A : Type 0} → LogicError → Reader A
throw e file zone = thrown e zone

unfoldable pub store : (Data → Data) → Reader (Unit {0})
store f file zone = read tt file (f zone)

-- `File::readBytes`: the array of a negative size is undefined behaviour.
unfoldable pub read_bytes : ℤ → Reader (List ℕ)
read_bytes (pos n) file zone =
    if leb n (length file)
    then read (take n file) (drop n file) zone
    else thrown no_enough_data zone
read_bytes (negsuc n) file zone = stuck

-- `File::readInt32`: the value is kept as a signed integer.
unfoldable pub read_int32 : Reader ℤ
read_int32 file zone =
    if leb 4 (length file)
    then read (to_int32 (pos (from_be (take 4 file)))) (drop 4 file) zone
    else thrown bad_int32 zone

unfoldable pub read_u_int8 : Reader ℕ
read_u_int8 [] zone = thrown bad_uint8 zone
read_u_int8 (x ∷ file) zone = read x file zone

-- `vector::reserve`, which takes a negative count for one that is too large.
unfoldable pub reserve : ℤ → Reader (Unit {0})
reserve (pos n) file zone = read tt file zone
reserve (negsuc n) file zone = thrown length_error zone

-- The loops that read one item for each of `n` rounds.
unfoldable pub read_each : {A : Type 0} → Reader A → ℕ → Reader (List A)
read_each item zero file zone = read [] file zone
read_each item (suc n) file zone = elim (item file zone) [
  | read a rest z ↦ elim (read_each item n rest z) [
    | read l rest' z' ↦ read (a ∷ l) rest' z'
    | thrown e z' ↦ thrown e z'
    | stuck ↦ stuck
  ]
  | thrown e z ↦ thrown e z
  | stuck ↦ stuck
]

unfoldable pub read_localtime : Reader (Unit {0})
read_localtime = do
  gmtoff ← read_int32
  isdst ← read_u_int8
  abbrind ← read_u_int8
  store λ z. record z {
    localtimes =
        z.localtimes
        ++ record { gmt_offset = gmtoff; is_dst = not (isdst == 0); arrb_idx = abbrind } ∷ [];
  }

-- The loop that stores the transitions.
unfoldable pub store_transition : ℤ → ℕ → Reader (Unit {0})
store_transition trans idx file zone = elim (get_elem? zone.localtimes idx) [
  | none ↦ stuck
  | some l ↦ read tt file (record zone {
    transitions =
        zone.transitions
        ++ record { gmttime = trans; localtime = trans +ℤ l.gmt_offset; localtime_idx = idx } ∷ [];
  })
]

unfoldable pub store_transitions : List ℤ → List ℕ → Reader (Unit {0})
store_transitions (t ∷ trans) (i ∷ localtimes) =
    store_transition t i >> store_transitions trans localtimes
store_transitions trans localtimes = λ file zone. read tt file zone

-- What stands behind the test of the head.
unfoldable pub read_tables : Reader (Unit {0})
read_tables = do
  version ← read_bytes (pos 1)
  reserved ← read_bytes (pos 15)
  isgmtcnt ← read_int32
  isstdcnt ← read_int32
  leapcnt ← read_int32
  timecnt ← read_int32
  typecnt ← read_int32
  charcnt ← read_int32
  reserve timecnt
  trans ← read_each read_int32 (pos_part timecnt)
  localtimes ← read_each read_u_int8 (pos_part timecnt)
  types ← read_each read_localtime (pos_part typecnt)
  store_transitions trans localtimes
  abbreviation ← read_bytes charcnt
  store λ z. record z { abbreviation = abbreviation }

-- The `if` on the head has the empty statement, so that the block behind it runs in any case.
unfoldable pub read_file : Reader (Unit {0})
read_file = do head ← read_bytes (pos 4); throw {A = Unit {0}} bad_head; read_tables

-- The exceptions are caught and printed; `none` is a file that does not open. The function returns true.
unfoldable pub read_time_zone_file : Option (List ℕ) → Data → Option (Bool × Data)
read_time_zone_file none zone = some (true, zone)
read_time_zone_file (some file) zone = elim (read_file file zone) [
  | read u rest z ↦ some (true, z)
  | thrown e z ↦ some (true, z)
  | stuck ↦ none
]

abbrev pub no_data : Data
no_data = record { transitions = []; localtimes = []; abbreviation = [] }

-- The constructor `TimeZone(zonefile)`, which keeps the data or clears the pointer.
unfoldable pub time_zone : Option (List ℕ) → Option (Option Data)
time_zone file = elim (read_time_zone_file file no_data) [
  | none ↦ none
  | some r ↦ some (if r.0 then some r.1 else none)
]
