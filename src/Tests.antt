-- ===== src/Tests.antt =====
-- The theorems at concrete inputs: the shared data stands here, and a child for each part.
mod CrcTests
mod BufferTests
mod CodecTests
mod RegistryTests
mod DateTests
mod PortTests
mod TimerTests
mod ConnectionTests
mod EPollTests
mod LoadingTests
mod PollerTests
mod ConnectorTests
mod LoopTests
mod LifeTests
mod LogFileTests
mod LogTests
mod PoolTests
mod ServerTests
use Prim.Native.String.{String}
use dbdky_gcc.Common.{refl, ℕ, ◌+◌, ◌*◌, List, [], ◌∷◌, ◌++◌, replicate, Option, none, some}
use dbdky_gcc.Common.Int.{ℤ, pos, negsuc}
use dbdky_gcc.Common.Decimal.{decimal}
use dbdky_gcc.Codec.{Tm, Float, CodecState, DbInsert, type_real}
use dbdky_gcc.Codec.Reading.{Stamp}
use dbdky_gcc.SerialPort.Storing.{IsRecord}

-- Whole numbers for the precisions.
abbrev pub counts : Float
counts = record { F = ℕ; one = 1; of_ℕ = λ n. n; mul = λ a b. a * b; print_real = decimal }

-- A clock that counts only the minutes.
abbrev pub minutes : Tm → ℤ
minutes t = t.tm_min

abbrev pub zeros_128 : List ℕ
zeros_128 = replicate 128 0

abbrev pub tripled : CodecState ℕ
tripled = record { precisions = ("Amp", 3) ∷ ("TotA", 2) ∷ []; ln_inst = "LN1" }

abbrev pub noon : Stamp
noon = record { year = 19; month = 11; day = 26; hour = 12; minute = 0; second = 0 }

abbrev pub noon_tm : Tm
noon_tm = record {
  tm_year = pos 119;
  tm_mon = pos 10;
  tm_mday = pos 26;
  tm_hour = pos 12;
  tm_min = pos 0;
  tm_sec = pos 0;
}

-- The bytes behind the time of a frame with the amplitude 500, its CRC among them.
abbrev pub amp_tail : List ℕ
amp_tail = 0 ∷ 0 ∷ 0 ∷ 0 ∷ 0 ∷ 0 ∷ 0 ∷ 0 ∷ 62 ∷ 1 ∷ []

-- The bytes of an empty record.
abbrev pub blank : DbInsert
blank = record {
  rep_id = "";
  ln_inst_array = replicate 50 "";
  ln_id_array_size = 0;
  data_array = replicate 50 [];
  type_array = replicate 128 type_real;
  field_array = replicate 50 "";
  param_size = 0;
}

pub blank-IsRecord : IsRecord blank
blank-IsRecord = record { nodes = refl; values = refl; types = refl; fields = refl }
