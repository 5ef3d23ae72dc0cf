-- ===== src/TimeZone/Unread.antt =====
-- No file of a time zone is read.
use dbdky_gcc.Common.{
  ℕ, ◌≡◌, refl, Option, none, some, List, true, Bool-cases, inl, inr, leb, length,
}
use dbdky_gcc.Common.Int.{ℤ}
use dbdky_gcc.TimeZone.{Data, Tm, find_localtime, is_before, to_local_time, from_local_time}
use dbdky_gcc.TimeZone.File.{
  ◌>>=◌, ◌>>◌, throw, read_bytes, read_file, read_time_zone_file, no_data, time_zone,
}

read_time_zone_file_lem :
    (file : Option (List ℕ)) (zone : Data) → read_time_zone_file file zone ≡ some (true, zone)
unfolding read_time_zone_file read_file read_bytes throw ◌>>=◌ ◌>>◌
read_time_zone_file_lem none zone = refl
read_time_zone_file_lem (some file) zone = elim (Bool-cases (leb 4 (length file))) [
  | inl long ↦ rw (long, read_time_zone_file) refl
  | inr short ↦ rw (short, read_time_zone_file) refl
]

-- Whatever the file holds, and also where there is none, the constructor gives a zone that counts as
-- valid, and with it each conversion to or from local time accesses an empty vector.
pub time_zone-empty :
    (gmtime : ℤ → Tm) (timegm : Tm → ℤ) (file : Option (List ℕ))
    → (zone : Data) × (time_zone file ≡ some (some zone))
      × ((seconds : ℤ) → to_local_time gmtime (some zone) seconds ≡ none)
      × ((local_tm : Tm) → from_local_time gmtime timegm (some zone) local_tm ≡ none)
unfolding time_zone to_local_time from_local_time find_localtime is_before
time_zone-empty gmtime timegm file = (
  no_data,
  rw (read_time_zone_file_lem file no_data, time_zone) refl,
  λ seconds. refl,
  λ local_tm. refl,
)
