-- ===== src/SerialPort/Polling.antt =====
-- What the query timers send, and what they leave set for the read loop.
use Prim.Native.String.{String}
use text.Mathlib.Text.{◌==◌ as str_eq}
use text.Mathlib.TextEquality.{eq_iff}
use dbdky_gcc.Common.{
  ℕ, ◌≤◌, ◌≡◌, refl, ap, ◌∙◌, Option, some, List, [], ◌∷◌, ◌++◌, length, take, arith, ◌==◌, true,
  false, if◌then◌else◌, inl, inr,
}
use dbdky_gcc.Common.Dict.{assign, lookup-assign}
use dbdky_gcc.Common.Int.{ℤ, low_byte}
use dbdky_gcc.Codec.{Tm, Float, CodecState, assign_all}
use dbdky_gcc.Codec.Frames.{
  Sends, sealed, query, Answers, low_byte-Byte, mmxn-Answers, zsar-Answers,
}
use dbdky_gcc.Codec.Mmxn
use dbdky_gcc.Codec.Mmxn.{mmxn}
use dbdky_gcc.Codec.Zsar
use dbdky_gcc.Codec.Zsar.{zsar}
use dbdky_gcc.Registry.{
  MonitorUnit, MeasurePoint, PortEntry, get_monitor_unit_by_name, get_first_measure_point,
  get_param_config_list,
}
use dbdky_gcc.SerialPort.{CodecObject, Line, get_codec, codec_of, send_query, on_query_data_timer}

-- A unit that can be asked: it is registered under the name, the factory has its codec, it has a
-- first measure point, and its address is a number.
pub record IsReady {F : Type 0} (to_int : String → Option ℤ) (name : String) (port : PortEntry)
    (line : Line F) (unit : MonitorUnit) (codec : CodecObject F) (mp : MeasurePoint) (mac : ℤ)
    : Type 0 where
  pub registered : get_monitor_unit_by_name name port ≡ some unit
  pub known : get_codec unit.protocolname line.codec_list ≡ some codec
  pub first : get_first_measure_point unit ≡ some mp
  pub numbered : to_int unit.mac ≡ some mac

-- The query was sent, and the read loop finds the codec set for the measure point.
pub record Polls {F : Type 0} (line after : Line F) (body : List ℕ) (codec : CodecObject F)
    : Type 0 where
  pub sent : after.written ≡ line.written ++ sealed body
  pub listens : codec_of after ≡ some codec

module _ {F : Type 0} (to_float : String → Option F) (to_int : String → Option ℤ) (now : Tm)
    (stack : List ℕ) where
  written_query :
      (set : Line F) (body : List ℕ) (r : ℕ × List ℕ × ℕ)
      → Sends body stack r
      → (if r.0 == 0 then set else record set { written = set.written ++ take r.2 r.1 })
        ≡ record set { written = set.written ++ sealed body }
  written_query set body r s =
      let one : (r.0 == 0) ≡ false = ground (arith, s.accepted) in
      rw one (
        ap (λ t. record set { written = set.written ++ t }) (ap (λ k. take k r.1) s.sent ∙ s.frame))

  query_lem :
      (name : String) (port : PortEntry) (line : Line F) (unit : MonitorUnit)
      (codec : CodecObject F) (mp : MeasurePoint) (mac : ℤ) (body : List ℕ)
      → IsReady to_int name port line unit codec mp mac
      → Sends body stack (codec.0.make_query_cmd now (low_byte mac) stack 14)
      → on_query_data_timer to_float to_int now stack name port line ≡ record {
        codec_list =
            assign unit.protocolname
              (codec.0, codec.0.set_config codec.1 mp.id (get_param_config_list to_float unit))
              line.codec_list;
        codec = some unit.protocolname;
        written = line.written ++ sealed body;
      }
  unfolding on_query_data_timer send_query
  query_lem name port line unit codec mp mac body ready s =
      rw
        (
          ready.registered, ready.known, ready.first, ready.numbered, on_query_data_timer,
          send_query,
        )
        (written_query _ body _ s)

  query-Polls :
      (name : String) (port : PortEntry) (line : Line F) (unit : MonitorUnit)
      (codec : CodecObject F) (mp : MeasurePoint) (mac : ℤ) (body : List ℕ)
      → IsReady to_int name port line unit codec mp mac
      → Sends body stack (codec.0.make_query_cmd now (low_byte mac) stack 14)
      → Polls line
          (on_query_data_timer to_float to_int now stack name port line)
          body
          (codec.0, codec.0.set_config codec.1 mp.id (get_param_config_list to_float unit))
  unfolding codec_of
  query-Polls name port line unit codec mp mac body ready s = record {
    sent = ap (λ l. l.written) (query_lem name port line unit codec mp mac body ready s);
    listens =
        ap codec_of (query_lem name port line unit codec mp mac body ready s)
        ∙ lookup-assign unit.protocolname unit.protocolname _ line.codec_list
        ∙ (let same : str_eq unit.protocolname unit.protocolname ≡ true =
              (eq_iff unit.protocolname unit.protocolname).1 refl in
            rw same refl);
  }

-- `codedata` has 14 bytes, and a query takes 8.
Sends-in_room :
    (body stack : List ℕ) (r : ℕ × List ℕ × ℕ)
    → length body ≤ 12
    → Answers body stack 14 r
    → Sends body stack r
Sends-in_room body stack r h (inl (short, e)) = absurd (omega arith)
Sends-in_room body stack r h (inr (long, s)) = s

-- A timer for a unit that is ready and speaks MMXN writes the query for 8 registers, from 0x21 on,
-- with the low byte of its address in front and the CRC behind, and sets for the read loop this
-- codec with the name of the unit's first measure point and the unit's precisions.
pub mmxn-Polls :
    (fl : Float) (mktime : Tm → ℤ) (junk : List ℕ) (to_float : String → Option fl.F)
    (to_int : String → Option ℤ) (now : Tm) (stack : List ℕ) (name : String) (port : PortEntry)
    (line : Line fl.F) (unit : MonitorUnit) (c : CodecState fl.F) (mp : MeasurePoint) (mac : ℤ)
    → length stack ≡ 14
    → IsReady to_int name port line unit (mmxn fl mktime junk, c) mp mac
    → Polls line
        (on_query_data_timer to_float to_int now stack name port line)
        (low_byte mac ∷ 4 ∷ 0 ∷ 0x21 ∷ 0 ∷ 8 ∷ [])
        (
          mmxn fl mktime junk,
          record {
            precisions = assign_all (get_param_config_list to_float unit) c.precisions;
            ln_inst = mp.id;
          },
        )
unfolding mmxn Mmxn.set_config
mmxn-Polls fl mktime junk to_float to_int now stack name port line unit c mp mac room ready =
    query-Polls to_float to_int now stack name port line unit (mmxn fl mktime junk, c) mp mac _
      ready
      (Sends-in_room _ stack _ (omega arith) (
        mmxn-Answers fl mktime junk query now (low_byte mac) stack 14 (low_byte-Byte mac)
          (omega arith)))

-- A timer for a unit that is ready and speaks ZSAR writes the query for 10 registers, from 0x20 on,
-- with the low byte of its address in front and the CRC behind, and sets for the read loop this
-- codec with the name of the unit's first measure point and the unit's precisions.
pub zsar-Polls :
    (fl : Float) (mktime : Tm → ℤ) (to_float : String → Option fl.F) (to_int : String → Option ℤ)
    (now : Tm) (stack : List ℕ) (name : String) (port : PortEntry) (line : Line fl.F)
    (unit : MonitorUnit) (c : CodecState fl.F) (mp : MeasurePoint) (mac : ℤ)
    → length stack ≡ 14
    → IsReady to_int name port line unit (zsar fl mktime, c) mp mac
    → Polls line
        (on_query_data_timer to_float to_int now stack name port line)
        (low_byte mac ∷ 4 ∷ 0 ∷ 0x20 ∷ 0 ∷ 10 ∷ [])
        (
          zsar fl mktime,
          record {
            precisions = assign_all (get_param_config_list to_float unit) c.precisions;
            ln_inst = mp.id;
          },
        )
unfolding zsar Zsar.set_config
zsar-Polls fl mktime to_float to_int now stack name port line unit c mp mac room ready =
    query-Polls to_float to_int now stack name port line unit (zsar fl mktime, c) mp mac _ ready
      (Sends-in_room _ stack _ (omega arith) (
        zsar-Answers fl mktime query now (low_byte mac) stack 14 (low_byte-Byte mac) (omega arith)))
