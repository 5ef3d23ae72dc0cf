-- ===== src/SerialPort/Storing.antt =====
-- From the pieces of an answer of the device to the calls that store its values.
use Prim.Native.String.{String, ◌++◌ as str_append}
use mathlib.Core.List.{append-nil}
use dbdky_gcc.Common.{
  ℕ, zero, suc, ◌+◌, ◌*◌, ◌≤◌, ◌<◌, ◌≡◌, refl, ap, ◌∙◌, some, List, [], ◌∷◌, ◌++◌, length, take,
  drop, overwrite, replicate, All, arith, ◌==◌, leb, ltb, true, false, if◌then◌else◌,
  take-overwrite, overwrite-split, take-append, take_all, length-replicate, length-append,
  All-append,
}
use dbdky_gcc.Common.Int.{ℤ}
use dbdky_gcc.Codec.{
  Tm, Float, CodecState, DbInsert, parse_success, FieldType, type_utc, type_real, type_integer,
  stamped,
}
use dbdky_gcc.Codec.Reading.{
  stores, Stamp, tm_of, mmxn_frame, zsar_frame, mmxn_parser-reading, zsar_parser-reading,
}
use dbdky_gcc.Codec.Mmxn
use dbdky_gcc.Codec.Mmxn.{mmxn}
use dbdky_gcc.Codec.Zsar
use dbdky_gcc.Codec.Zsar.{zsar}
use dbdky_gcc.SerialPort.{CodecObject, cleared, handle, listen_turn, listen, store_calls}
use dbdky_gcc.SerialPort.Framing.{turns, joined, listen-pieces}
use dbdky_gcc.SerialPort.Codecs.{mmxn-IsWaiting, zsar-IsWaiting}
use dbdky_gcc.Codec.Check.{IsMemory}
use dbdky_gcc.Crc.{crc16}
use dbdky_gcc.Common.Int.{pos, ◌+ℤ◌, to_int32, print_int}
use dbdky_gcc.Common.Decimal.{decimal}

-- The arrays of `DB_INSERT_DATATYPE`.
pub record IsRecord (out : DbInsert) : Type 0 where
  pub nodes : length out.ln_inst_array ≡ 50
  pub values : length out.data_array ≡ 50
  pub types : length out.type_array ≡ 128
  pub fields : length out.field_array ≡ 50

-- A record whose arrays begin with the given lists is passed to one call.
store_calls-one :
    (out : DbInsert) (ln_inst : String) (values : List (List ℕ)) (types : List FieldType)
    (fields : List String)
    → IsRecord out
    → length values ≤ 50
    → length types ≡ length values
    → length fields ≡ length values
    → store_calls (stores out ln_inst values types fields) 0 1 ≡ (
        record {
          rep_id = str_append "COMDATA/" ln_inst;
          logic_nodes = ln_inst ∷ [];
          logic_id_array_size = 1;
          values = values;
          types = types;
          fields = fields;
        }
        ∷ [])
unfolding store_calls stamped
store_calls-one out ln_inst values types fields room h e e' =
    rw
      (
        take-overwrite out.ln_inst_array 0 1 (ln_inst ∷ []) (omega (arith, room.nodes)) refl,
        take-overwrite out.data_array 0 (length values) values (omega (arith, room.values))
            (omega arith),
        take-overwrite out.type_array 0 (length values) types (omega (arith, room.types))
            (omega arith),
        take-overwrite out.field_array 0 (length values) fields (omega (arith, room.fields))
            (omega arith),
      )
      refl

-- A frame at the start of the cleared buffer.
framed :
    (frame : List ℕ)
    → length frame ≤ 256
    → overwrite (replicate 256 0) 0 frame ≡ frame ++ drop (length frame) (replicate 256 0)
framed frame h =
    overwrite-split (replicate 256 0) 0 frame (omega (arith, length-replicate {A = ℕ} 256 0))
    ∙ ap (λ k. frame ++ drop k (replicate 256 0)) {x = 0 + length frame} {y = length frame}
        (omega arith)

All-replicate {ℓ κ} : {A : Type ℓ} (P : A → Type κ) (n : ℕ) (a : A) → P a → All P (replicate n a)
All-replicate P zero a h = tt
All-replicate P (suc n) a h = (h, All-replicate P n a h)

All-drop {ℓ κ} : {A : Type ℓ} (P : A → Type κ) (n : ℕ) (xs : List A) → All P xs → All P (drop n xs)
All-drop P zero xs h = h
All-drop P (suc n) [] h = tt
All-drop P (suc n) (x ∷ xs) h = All-drop P n xs h.1

framed-IsMemory :
    (frame : List ℕ)
    → length frame ≤ 256
    → All (λ b. b < 256) frame
    → IsMemory (frame ++ drop (length frame) (replicate 256 0)) (length frame)
framed-IsMemory frame h bytes = record {
  bytes =
      All-append (λ b. b < 256) frame _ bytes
        (All-drop (λ b. b < 256) (length frame) (replicate 256 0)
          (All-replicate (λ b. b < 256) 256 0 (omega arith)));
  holds = omega (arith, length-append frame (drop (length frame) (replicate {A = ℕ} 256 0)));
}

-- One read of a frame, whose parser answers with a record for one call.
one_call :
    {F : Type 0} (codec : CodecObject F) (out d : DbInsert) (frame : List ℕ)
    → 0 < length frame
    → length frame ≤ 256
    → codec.0.parser codec.1 (frame ++ drop (length frame) (replicate 256 0)) (length frame) out
      ≡ some (parse_success, d)
    → listen (turns codec out (frame ∷ [])) cleared
      ≡ some (cleared, store_calls d 0 d.ln_id_array_size)
unfolding listen listen_turn handle cleared
one_call codec out d frame full fits e =
    let some_bytes : (length frame == 0) ≡ false = ground arith in
    let inside : leb (0 + length frame) (length (replicate {A = ℕ} 256 0)) ≡ true =
      ground (arith, length-replicate {A = ℕ} 256 0) in
    let sum : 0 + length frame ≡ length frame = omega arith in
    rw (some_bytes, inside, sum, framed frame fits, e)
      (ap (λ t. some (cleared, t)) (append-nil (store_calls d 0 d.ln_id_array_size)))

-- The checked part of the buffer is the frame.
framed_crc :
    (frame behind : List ℕ) (n : ℕ)
    → length frame ≡ n
    → crc16 frame ≡ 0
    → crc16 (take n (frame ++ behind)) ≡ 0
framed_crc frame behind n h e =
    ap crc16 (take-append frame behind n (omega (arith, h)) ∙ take_all frame n (omega (arith, h)))
    ∙ e

-- If the MMXN device's answer of 21 bytes, with a right CRC, reaches the cleared buffer in pieces,
-- the loop stores it once, under the name that the codec was given: the time, moved by eight
-- hours, as text, and the amplitude, in the scale of the configuration up to 1000 and as it is
-- above. The buffer is cleared behind it.
pub mmxn-stores :
    (fl : Float) (mktime : Tm → ℤ) (stack : List ℕ) (c : CodecState fl.F) (addr code : ℕ)
    (t : Stamp) (hi lo : ℕ) (rest : List ℕ) (pieces : List (List ℕ)) (last : List ℕ)
    (out : DbInsert)
    → joined pieces ++ last ≡ mmxn_frame addr code t hi lo rest
    → 0 < length last
    → length rest ≡ 10
    → All (λ b. b < 256) (mmxn_frame addr code t hi lo rest)
    → crc16 (mmxn_frame addr code t hi lo rest) ≡ 0
    → t.year < 100
    → length stack ≡ 128
    → IsRecord out
    → listen (turns (mmxn fl mktime stack, c) out (pieces ++ (last ∷ []))) cleared
      ≡ some (
        cleared,
        record {
          rep_id = str_append "COMDATA/" c.ln_inst;
          logic_nodes = c.ln_inst ∷ [];
          logic_id_array_size = 1;
          values =
              print_int (to_int32 (mktime (tm_of t) +ℤ pos 28800))
              ∷ fl.print_real (
                  if ltb 1000 (hi * 256 + lo)
                  then fl.of_ℕ (hi * 256 + lo)
                  else fl.mul (fl.of_ℕ (hi * 256 + lo)) (Mmxn.precision_of fl mktime stack c "Amp"))
              ∷ [];
          types = type_utc ∷ type_real ∷ [];
          fields = "SmpTm" ∷ "Amp" ∷ [];
        }
            ∷ [],
      )
unfolding mmxn stamped
mmxn-stores fl mktime stack c addr code t hi lo rest pieces last out whole full size bytes good
      small room fits =
    listen-pieces (mmxn fl mktime stack, c) 21 (mmxn-IsWaiting fl mktime stack c) out pieces last
      cleared (unfold cleared in length-replicate {A = ℕ} 256 0)
      (unfold cleared in omega (arith, length-append (joined pieces) last, ap length whole, size))
      full
    ∙ ap (λ f. listen (turns (mmxn fl mktime stack, c) out (f ∷ [])) cleared) whole
    ∙ one_call (mmxn fl mktime stack, c) out _ (mmxn_frame addr code t hi lo rest)
        (omega (arith, size)) (omega (arith, size))
        (mmxn_parser-reading fl mktime stack c addr code t hi lo (rest ++ behind) _ out
          (framed-IsMemory (mmxn_frame addr code t hi lo rest) (omega (arith, size)) bytes)
          (omega (arith, size))
          (framed_crc (mmxn_frame addr code t hi lo rest) behind 21 (omega (arith, size)) good) room
          small)
    ∙ ap (λ calls. some (cleared, calls))
        (store_calls-one out c.ln_inst _ _ _ fits (omega arith) refl refl)
  where
    behind : List ℕ
    behind = drop (length (mmxn_frame addr code t hi lo rest)) (replicate 256 0)

-- If the ZSAR device's answer of 25 bytes, with a right CRC, reaches the cleared buffer in pieces,
-- the loop stores it once, under the name that the codec was given: the time, moved by eight
-- hours, the low bytes of the three words, the first two in the scale of the configuration, and
-- the time of the last operation. The buffer is cleared behind it.
pub zsar-stores :
    (fl : Float) (mktime : Tm → ℤ) (c : CodecState fl.F) (addr code f g : ℕ) (t : Stamp)
    (ah al rh rl oh ol : ℕ) (op : Stamp) (rest : List ℕ) (pieces : List (List ℕ)) (last : List ℕ)
    (out : DbInsert)
    → joined pieces ++ last ≡ zsar_frame addr code f g t (ah ∷ al ∷ rh ∷ rl ∷ oh ∷ ol ∷ []) op rest
    → 0 < length last
    → length rest ≡ 2
    → All (λ b. b < 256) (zsar_frame addr code f g t (ah ∷ al ∷ rh ∷ rl ∷ oh ∷ ol ∷ []) op rest)
    → crc16 (zsar_frame addr code f g t (ah ∷ al ∷ rh ∷ rl ∷ oh ∷ ol ∷ []) op rest) ≡ 0
    → t.year < 100
    → op.year < 100
    → IsRecord out
    → listen (turns (zsar fl mktime, c) out (pieces ++ (last ∷ []))) cleared
      ≡ some (
        cleared,
        record {
          rep_id = str_append "COMDATA/" c.ln_inst;
          logic_nodes = c.ln_inst ∷ [];
          logic_id_array_size = 1;
          values =
              print_int (to_int32 (mktime (tm_of t) +ℤ pos 28800))
              ∷ fl.print_real (fl.mul (fl.of_ℕ al) (Zsar.precision_of fl mktime c "TotA"))
              ∷ fl.print_real (fl.mul (fl.of_ℕ rl) (Zsar.precision_of fl mktime c "RisA"))
              ∷ decimal ol
              ∷ print_int (Zsar.last_op_time (mktime (tm_of op)))
              ∷ [];
          types = type_utc ∷ type_real ∷ type_real ∷ type_integer ∷ type_utc ∷ [];
          fields = "SmpTm" ∷ "TotA" ∷ "RisA" ∷ "OpCnt" ∷ "LastOpTm" ∷ [];
        }
            ∷ [],
      )
unfolding zsar stamped
zsar-stores fl mktime c addr code f g t ah al rh rl oh ol op rest pieces last out whole full size
      bytes good small small' fits =
    listen-pieces (zsar fl mktime, c) 25 (zsar-IsWaiting fl mktime c) out pieces last cleared
      (unfold cleared in length-replicate {A = ℕ} 256 0)
      (unfold cleared in omega (arith, length-append (joined pieces) last, ap length whole, size))
      full
    ∙ ap (λ h. listen (turns (zsar fl mktime, c) out (h ∷ [])) cleared) whole
    ∙ one_call (zsar fl mktime, c) out _ frame (omega (arith, size)) (omega (arith, size))
        (zsar_parser-reading fl mktime c addr code f g t ah al rh rl oh ol op (rest ++ behind) _ out
          (framed-IsMemory frame (omega (arith, size)) bytes) (omega (arith, size))
          (framed_crc frame behind 25 (omega (arith, size)) good) small small')
    ∙ ap (λ calls. some (cleared, calls))
        (store_calls-one out c.ln_inst _ _ _ fits (omega arith) refl refl)
  where
    frame : List ℕ
    frame = zsar_frame addr code f g t (ah ∷ al ∷ rh ∷ rl ∷ oh ∷ ol ∷ []) op rest

    behind : List ℕ
    behind = drop (length frame) (replicate 256 0)
