-- ===== src/Tests/PortTests.antt =====
-- A port with one unit: its query, and the answer in two pieces.
use dbdky_gcc.Common.{ℕ, ◌≡◌, refl, [], ◌∷◌, ◌++◌, drop, replicate, some, none, arith}
use dbdky_gcc.Common.Dict.{lookup}
use dbdky_gcc.Common.Int.{pos, ◌+ℤ◌, to_int32, print_int, low_byte}
use dbdky_gcc.Common.Decimal.{decimal}
use dbdky_gcc.Codec.{assign_all, type_utc, type_real, type_integer}
use dbdky_gcc.Codec.Mmxn.{mmxn}
use dbdky_gcc.Codec.Zsar
use dbdky_gcc.Codec.Zsar.{zsar}
use dbdky_gcc.Registry.{
  MonitorUnit, PortEntry, get_monitor_unit_by_name, get_first_measure_point, get_param_config_list,
}
use dbdky_gcc.SerialPort.{CodecObject, Line, cleared, listen, get_codec, on_query_data_timer}
use dbdky_gcc.SerialPort.Framing.{turns, listen-pieces}
use dbdky_gcc.SerialPort.Bounds.{IsAnswering, Continues, cleared-IsWithin, listen-Continues}
use dbdky_gcc.SerialPort.Codecs.{mmxn-IsWaiting, mmxn-IsAnswering}
use dbdky_gcc.SerialPort.Storing.{mmxn-stores, zsar-stores}
use dbdky_gcc.SerialPort.Polling.{IsReady, Polls, mmxn-Polls}
use dbdky_gcc.Tests.{
  counts, minutes, zeros_128, tripled, noon, noon_tm, amp_tail, blank, blank-IsRecord,
}
use dbdky_gcc.Tests.CodecTests.{amp_frame, amp_frame-good, leak_frame, leak_frame-good, morning}
use dbdky_gcc.Tests.RegistryTests.{unit, point, port, three, minute_of}

abbrev amp_codec : CodecObject ℕ
amp_codec = (mmxn counts minutes zeros_128, tripled)

abbrev leak_codec : CodecObject ℕ
leak_codec = (zsar counts minutes, tripled)

mmxn-stores_example :
    listen (turns amp_codec blank (((1 ∷ 4 ∷ []) ∷ [] ∷ []) ++ (drop 2 amp_frame ∷ []))) cleared
    ≡ some (
      cleared,
      record {
        rep_id = "COMDATA/LN1";
        logic_nodes = "LN1" ∷ [];
        logic_id_array_size = 1;
        values = print_int (to_int32 (pos 0 +ℤ pos 28800)) ∷ decimal 1500 ∷ [];
        types = type_utc ∷ type_real ∷ [];
        fields = "SmpTm" ∷ "Amp" ∷ [];
      }
          ∷ [],
    )
unfolding lookup
mmxn-stores_example =
    mmxn-stores counts minutes zeros_128 tripled 1 4 noon 1 244 amp_tail ((1 ∷ 4 ∷ []) ∷ [] ∷ [])
      (drop 2 amp_frame) blank refl (omega arith) refl (omega arith) amp_frame-good (omega arith)
      refl blank-IsRecord

zsar-stores_example :
    listen (turns leak_codec blank (((1 ∷ 4 ∷ []) ∷ []) ++ (drop 2 leak_frame ∷ []))) cleared
    ≡ some (
      cleared,
      record {
        rep_id = "COMDATA/LN1";
        logic_nodes = "LN1" ∷ [];
        logic_id_array_size = 1;
        values =
            print_int (to_int32 (pos 0 +ℤ pos 28800))
            ∷ decimal 10
            ∷ decimal 7
            ∷ decimal 9
            ∷ print_int (Zsar.last_op_time (pos 0))
            ∷ [];
        types = type_utc ∷ type_real ∷ type_real ∷ type_integer ∷ type_utc ∷ [];
        fields = "SmpTm" ∷ "TotA" ∷ "RisA" ∷ "OpCnt" ∷ "LastOpTm" ∷ [];
      }
          ∷ [],
    )
unfolding lookup
zsar-stores_example =
    zsar-stores counts minutes tripled 1 4 0 0 noon 0 5 0 7 0 9 morning (30 ∷ 92 ∷ [])
      ((1 ∷ 4 ∷ []) ∷ []) (drop 2 leak_frame) blank refl (omega arith) refl (omega arith)
      leak_frame-good (omega arith) (omega arith) blank-IsRecord

listen-pieces_example :
    listen (turns amp_codec blank (((1 ∷ []) ∷ (4 ∷ []) ∷ []) ++ ((16 ∷ []) ∷ []))) cleared
    ≡ listen (turns amp_codec blank ((1 ∷ 4 ∷ 16 ∷ []) ∷ [])) cleared
unfolding cleared
listen-pieces_example =
    listen-pieces amp_codec 21 (mmxn-IsWaiting counts minutes zeros_128 tripled) blank
      ((1 ∷ []) ∷ (4 ∷ []) ∷ []) (16 ∷ []) cleared refl (omega arith) (omega arith)

listen-Continues_example :
    Continues 21 (listen (turns amp_codec blank (amp_frame ∷ (1 ∷ []) ∷ [])) cleared)
listen-Continues_example =
    listen-Continues 21 (omega arith) (turns amp_codec blank (amp_frame ∷ (1 ∷ []) ∷ [])) cleared
      (
        (omega arith, mmxn-IsAnswering counts minutes zeros_128 tripled refl),
        ((omega arith, mmxn-IsAnswering counts minutes zeros_128 tripled refl), tt),
      )
      (cleared-IsWithin 21 (omega arith))

mmxn-IsAnswering_example : IsAnswering amp_codec 21
mmxn-IsAnswering_example = mmxn-IsAnswering counts minutes zeros_128 tripled refl

abbrev line : Line ℕ
line = record {
  codec_list = ("MMXN", amp_codec) ∷ ("ZSAR", leak_codec) ∷ [];
  codec = none;
  written = [];
}

amp-IsReady : IsReady minute_of "MMXN1" port line unit amp_codec point (pos 1)
unfolding get_monitor_unit_by_name get_codec get_first_measure_point lookup
amp-IsReady = record { registered = refl; known = refl; first = refl; numbered = refl }

mmxn-Polls_example :
    Polls line
      (on_query_data_timer three minute_of noon_tm (replicate 14 0) "MMXN1" port line)
      (low_byte (pos 1) ∷ 4 ∷ 0 ∷ 0x21 ∷ 0 ∷ 8 ∷ [])
      (
        mmxn counts minutes zeros_128,
        record {
          precisions = assign_all (get_param_config_list three unit) tripled.precisions;
          ln_inst = "LN1";
        },
      )
mmxn-Polls_example =
    mmxn-Polls counts minutes zeros_128 three minute_of noon_tm (replicate 14 0) "MMXN1" port line
      unit tripled point (pos 1) refl amp-IsReady

abbrev leak_unit : MonitorUnit
leak_unit = record unit { protocolname = "ZSAR" }

abbrev leak_port : PortEntry
leak_port = record port { monitor_unit_list = ("ZSAR1", leak_unit) ∷ [] }

leak-IsReady : IsReady minute_of "ZSAR1" leak_port line leak_unit leak_codec point (pos 1)
unfolding get_monitor_unit_by_name get_codec get_first_measure_point lookup
leak-IsReady = record { registered = refl; known = refl; first = refl; numbered = refl }
