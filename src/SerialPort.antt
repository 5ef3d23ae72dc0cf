-- ===== src/SerialPort.antt =====
-- src/SerialPort.cpp: the loop that reads the line, and what a query timer does. The codecs come
-- from src/CodecFactory.cpp; the port keeps the name under which the factory holds the one in use.
pub mod Bounds
pub mod Framing
pub mod Codecs
pub mod Storing
pub mod Polling
pub mod Timers
pub mod Life
pub mod Living
pub mod Owning
use Prim.Native.String.{String}
use dbdky_gcc.Common.{
  ℕ, zero, suc, ◌+◌, ◌/◌, Option, none, some, List, [], ◌∷◌, ◌++◌, length, take, overwrite,
  replicate, ◌==◌, leb, if◌then◌else◌, ◌>>=◌, ◌>>◌, assert,
}
use dbdky_gcc.Common.Dict.{Dict, lookup, assign}
use dbdky_gcc.Common.Int.{ℤ, pos, negsuc, low_byte}
use dbdky_gcc.Codec.{
  Tm, CodecBase, CodecState, DbInsert, FieldType, ParseCode, parse_success,
  parse_error_length_short, parse_error_other,
}
use dbdky_gcc.Registry.{
  empty, MonitorUnit, MeasurePoint, PortEntry, get_monitor_unit_by_name, get_first_measure_point,
  get_param_config_list, unit_key,
}

-- A codec object: its functions and its members.
abbrev pub CodecObject : Type 0 → Type 0
CodecObject F = CodecBase F × CodecState F

-- The local variables `read_buf` and `n` of `listen`.
pub record Listener : Type 0 where
  pub read_buf : List ℕ
  pub n : ℕ

-- The arguments of a call of `storeDataPtr`: the names that are set in the array of the measure
-- points and the size that is given for it, and the entries below `arraySize` of the other arrays.
pub record StoreCall : Type 0 where
  pub rep_id : String
  pub logic_nodes : List String
  pub logic_id_array_size : ℕ
  pub values : List (List ℕ)
  pub types : List FieldType
  pub fields : List String

-- One turn of the loop sees the codec that is set, what an uninitialised `out` holds, and the
-- bytes that `read` gave, none where it gave none or failed.
pub record Turn (F : Type 0) : Type 0 where
  pub pcodec : Option (CodecObject F)
  pub stack_out : DbInsert
  pub bytes : List ℕ

unfoldable pub cleared : Listener
cleared = record { read_buf = replicate 256 0; n = 0 }

-- The calls for the measure points from `i` on; a call sees the names up to its own.
unfoldable pub store_calls : DbInsert → ℕ → ℕ → List StoreCall
store_calls p i zero = []
store_calls p i (suc k) =
    record {
      rep_id = p.rep_id;
      logic_nodes = take (suc i) p.ln_inst_array;
      logic_id_array_size = p.ln_id_array_size;
      values = take p.param_size p.data_array;
      types = take p.param_size p.type_array;
      fields = take p.param_size p.field_array;
    }
    ∷ store_calls p (suc i) k

-- What the loop does when `n` bytes stand in `read_buf`. `none` is a bad access of the parser.
unfoldable pub handle :
    {F : Type 0}
    → Option (CodecObject F)
    → DbInsert
    → List ℕ
    → ℕ
    → Option (Listener × List StoreCall)
unfolding cleared store_calls
handle none out read_buf n = some (cleared, [])
handle (some codec) out read_buf n = do
  r ← codec.0.parser codec.1 read_buf n out
  elim r.0 [
    | parse_success ↦ some (cleared, store_calls r.1 0 r.1.ln_id_array_size)
    | parse_error_length_short ↦ some (record { read_buf = read_buf; n = n }, [])
    | parse_error_other ↦ some (cleared, [])
  ]

-- One turn; `none` is also a write behind the end of `read_buf`.
unfoldable pub listen_turn : {F : Type 0} → Turn F → Listener → Option (Listener × List StoreCall)
unfolding handle
listen_turn t s = if length t.bytes == 0 then some (s, []) else do
  assert (leb (s.n + length t.bytes) (length s.read_buf))
  handle t.pcodec t.stack_out (overwrite s.read_buf s.n t.bytes) (s.n + length t.bytes)

-- The loop over a sequence of turns, with the calls in their order.
unfoldable pub listen : {F : Type 0} → List (Turn F) → Listener → Option (Listener × List StoreCall)
unfolding listen_turn
listen [] s = some (s, [])
listen (t ∷ turns) s = do
  one ← listen_turn t s
  rest ← listen turns one.0
  some (rest.0, one.1 ++ rest.1)

-- What a timer changes: the codecs of the factory, the port's codec, and the bytes that are written.
pub record Line (F : Type 0) : Type 0 where
  pub codec_list : Dict (CodecObject F)
  pub codec : Option String
  pub written : List ℕ

-- `getCodec`, by name.
unfoldable pub get_codec : {F : Type 0} → String → Dict (CodecObject F) → Option (CodecObject F)
get_codec protocolname codec_list =
    if empty protocolname then none else lookup protocolname codec_list

-- The codec that the listener reads.
unfoldable pub codec_of : {F : Type 0} → Line F → Option (CodecObject F)
codec_of line = line.codec >>= λ name. lookup name line.codec_list

-- `lexical_cast` to `float` and to `int` are boost's; `stack` is the uninitialised `codedata`, and
-- `now` the time at which a command is made.
module _ {F : Type 0} (to_float : String → Option F) (to_int : String → Option ℤ) (now : Tm)
    (stack : List ℕ) where
  -- What is done once the codec is chosen.
  unfoldable pub send_query : MonitorUnit → CodecObject F → Line F → Line F
  send_query unit codec line = elim (get_first_measure_point unit) [
    | none ↦ line
    | some mp ↦
        let state = codec.0.set_config codec.1 mp.id (get_param_config_list to_float unit) in
        let set : Line F = record line {
          codec_list = assign unit.protocolname (codec.0, state) line.codec_list;
        } in
        elim (to_int unit.mac) [
          | none ↦ set
          | some mac ↦
              let r = codec.0.make_query_cmd now (low_byte mac) stack 14 in
              if r.0 == 0 then set else record set { written = line.written ++ take r.2 r.1 }
        ]
  ]

  unfoldable pub on_query_data_timer : String → PortEntry → Line F → Line F
  unfolding get_codec send_query
  on_query_data_timer name port line = elim (get_monitor_unit_by_name name port) [
    | none ↦ line
    | some unit ↦ elim (get_codec unit.protocolname line.codec_list) [
      | none ↦ record line { codec = none }
      | some codec ↦ send_query unit codec (record line { codec = some unit.protocolname })
    ]
  ]

-- `interval/1000` of `int`s.
abbrev pub seconds_of : ℤ → ℤ
seconds_of (pos n) = pos (n / 1000)
seconds_of (negsuc n) = elim (suc n / 1000) [ zero ↦ pos 0 | suc k ↦ negsuc k ]

-- The timers that `startTimers` asks for: a period in seconds and the name it is called with.
unfoldable pub start_timers : (String → Option ℤ) → Dict MonitorUnit → List (ℤ × String)
unfolding unit_key
start_timers to_int [] = []
start_timers to_int ((key, unit) ∷ units) =
    let rest = start_timers to_int units in
    elim (to_int unit.interval) [
      | none ↦ rest
      | some interval ↦ (seconds_of interval, unit_key unit) ∷ rest
    ]
