-- ===== src/Tests/CodecTests.antt =====
-- Commands and frames of both codecs.
use dbdky_gcc.Common.{ℕ, ◌≡◌, refl, List, [], ◌∷◌, ◌++◌, take, replicate, some, arith}
use dbdky_gcc.Common.Dict.{lookup}
use dbdky_gcc.Common.Int.{pos, ◌+ℤ◌, to_int32, print_int}
use dbdky_gcc.Common.Decimal.{decimal}
use dbdky_gcc.Crc.{crc16}
use dbdky_gcc.Crc.Table.{auch_crc_hi, auch_crc_lo}
use dbdky_gcc.Codec.{DbInsert, parse_success, parse_error_other, type_utc, type_real, type_integer}
use dbdky_gcc.Codec.Mmxn
use dbdky_gcc.Codec.Mmxn.{mmxn}
use dbdky_gcc.Codec.Zsar
use dbdky_gcc.Codec.Zsar.{zsar}
use dbdky_gcc.Codec.Frames.{Answers, command_bytes, make, query, mmxn-Answers}
use dbdky_gcc.Codec.Check.{IsMemory}
use dbdky_gcc.Codec.Damage.{around, mmxn_parser-burst}
use dbdky_gcc.Codec.Reading.{
  Stamp, put_time, stores, mmxn_frame, zsar_frame, mmxn_parser-reading, zsar_parser-reading,
}
use dbdky_gcc.Tests.{counts, minutes, zeros_128, tripled, noon, noon_tm, amp_tail, blank}

mmxn-Answers_example :
    Answers
      (command_bytes 0x21 8 query noon_tm 1)
      (replicate 14 0)
      14
      (make (mmxn counts minutes zeros_128) query noon_tm 1 (replicate 14 0) 14)
mmxn-Answers_example =
    mmxn-Answers counts minutes zeros_128 query noon_tm 1 (replicate 14 0) 14 (omega arith)
      (omega arith)

-- 21 bytes from the device 1, with the amplitude 500.
abbrev pub amp_frame : List ℕ
amp_frame = mmxn_frame 1 4 noon 1 244 amp_tail

amp_frame-IsMemory : IsMemory amp_frame 21
amp_frame-IsMemory = record { bytes = omega arith; holds = omega arith }

pub amp_frame-good : crc16 (take 21 amp_frame) ≡ 0
unfolding crc16 auch_crc_hi auch_crc_lo
amp_frame-good = refl

abbrev amp_record : DbInsert
amp_record =
    stores blank "LN1" (print_int (to_int32 (pos 0 +ℤ pos 28800)) ∷ decimal 1500 ∷ [])
      (type_utc ∷ type_real ∷ []) ("SmpTm" ∷ "Amp" ∷ [])

amp_frame-stored :
    Mmxn.parser counts minutes zeros_128 tripled amp_frame 21 blank
    ≡ some (parse_success, amp_record)
unfolding lookup
amp_frame-stored =
    mmxn_parser-reading counts minutes zeros_128 tripled 1 4 noon 1 244 amp_tail 21 blank
      amp_frame-IsMemory (omega arith) amp_frame-good refl (omega arith)

-- The amplitude's high byte is 2 in place of 1.
damaged_frame-IsMemory : IsMemory (mmxn_frame 1 4 noon 2 244 amp_tail) 21
damaged_frame-IsMemory = record { bytes = omega arith; holds = omega arith }

mmxn_parser-burst_example :
    Mmxn.parser counts minutes zeros_128 tripled
      (around (1 ∷ 4 ∷ 16 ∷ put_time noon []) 2 244 (amp_tail ++ []))
      21
      blank
    ≡ some (parse_error_other, blank)
mmxn_parser-burst_example =
    mmxn_parser-burst counts minutes zeros_128 tripled (1 ∷ 4 ∷ 16 ∷ put_time noon []) amp_tail [] 1
      244 2 244 21 blank amp_record refl amp_frame-IsMemory damaged_frame-IsMemory (ground arith)
      amp_frame-stored

abbrev pub morning : Stamp
morning = record { year = 19; month = 11; day = 25; hour = 8; minute = 0; second = 0 }

-- 25 bytes from the device 1, with the words 5, 7 and 9.
abbrev pub leak_frame : List ℕ
leak_frame = zsar_frame 1 4 0 0 noon (0 ∷ 5 ∷ 0 ∷ 7 ∷ 0 ∷ 9 ∷ []) morning (30 ∷ 92 ∷ [])

leak_frame-IsMemory : IsMemory leak_frame 25
leak_frame-IsMemory = record { bytes = omega arith; holds = omega arith }

pub leak_frame-good : crc16 (take 25 leak_frame) ≡ 0
unfolding crc16 auch_crc_hi auch_crc_lo
leak_frame-good = refl

abbrev leak_record : DbInsert
leak_record =
    stores blank "LN1"
      (print_int (to_int32 (pos 0 +ℤ pos 28800))
        ∷ decimal 10
        ∷ decimal 7
        ∷ decimal 9
        ∷ print_int (Zsar.last_op_time (pos 0))
        ∷ [])
      (type_utc ∷ type_real ∷ type_real ∷ type_integer ∷ type_utc ∷ [])
      ("SmpTm" ∷ "TotA" ∷ "RisA" ∷ "OpCnt" ∷ "LastOpTm" ∷ [])

zsar_parser-reading_example :
    Zsar.parser counts minutes tripled leak_frame 25 blank ≡ some (parse_success, leak_record)
unfolding lookup
zsar_parser-reading_example =
    zsar_parser-reading counts minutes tripled 1 4 0 0 noon 0 5 0 7 0 9 morning (30 ∷ 92 ∷ []) 25
      blank leak_frame-IsMemory (omega arith) leak_frame-good (omega arith) (omega arith)

leak_frame-stored :
    Zsar.parser counts minutes tripled leak_frame 25 blank ≡ some (parse_success, leak_record)
unfolding lookup
leak_frame-stored =
    zsar_parser-reading counts minutes tripled 1 4 0 0 noon 0 5 0 7 0 9 morning (30 ∷ 92 ∷ []) 25
      blank leak_frame-IsMemory (omega arith) leak_frame-good (omega arith) (omega arith)

-- A flag byte is 1 in place of 0.
flagged_frame-IsMemory :
    IsMemory (zsar_frame 1 4 0 1 noon (0 ∷ 5 ∷ 0 ∷ 7 ∷ 0 ∷ 9 ∷ []) morning (30 ∷ 92 ∷ [])) 25
flagged_frame-IsMemory = record { bytes = omega arith; holds = omega arith }
