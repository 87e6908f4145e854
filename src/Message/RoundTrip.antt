-- ===== src/Message/RoundTrip.antt =====
-- `netstring2msg` on what `msg2netstring_buf` wrote (cl_netstring.c).
use cluster_glue_import.Prelude.{
  leb, ℕ, zero, suc, ◌+◌, ◌-◌, ◌^◌, ◌<◌, ◌≡◌, refl, ap, ◌∙◌, sym, subst, Bool, true, false, ◌&&◌,
  not, List, [], ◌∷◌, ◌++◌, append_assoc, Option, length, length-append, pos, sub_ℕ, arith,
}
use cluster_glue_import.Message.{
  Result, done, ◌>>=◌, HaMsg, empty, field, Value, string, binary, structure, strings, compressed,
  uncompressed, type_of, append_field,
}
use cluster_glue_import.Message.Netstring.{colon, comma, end_netstring}
use cluster_glue_import.Message.Parse.{
  Piece, piece_of, span_of, peel_netstring, netstringtofield, strncmp_eq, add_pair,
  process_netstring_nvpair, start_fields, add_piece, fields_loop, netstring2msg,
}
use cluster_glue_import.Message.Scan.{is_digit}
use cluster_glue_import.Message.Netstring.{msg2netstring, maxuncompressed}
use cluster_glue_import.Message.Encode.{msg2netstring-wire}
use cluster_glue_import.Message.Wire.{
  netstring, pair_text, wire_value, wire_fields, wire, length-netstring, length-pair_text,
  length-wire_rest,
}
use cluster_glue_import.Message.Decimal.{first_digit}
use cluster_glue_import.Message.Peel.{no_stop, peel-netstring, name_span-append, copy-append}
use cluster_glue_import.Message.Unpack.{string_list_unpack-wire}
use cluster_glue_import.Message.Sendable.{
  good_name, append_msg, SendableValue, Sendable, Sendable-Encodable, addraw-Sendable,
}

append_msg-field :
    (name : List ℕ) (v : Value) (m r : HaMsg)
    → append_msg (field name v m) r ≡ field name v (append_msg m r)
append_msg-field name v m empty = refl
append_msg-field name v m (field name' v' r) = append_msg-field name v (append_field m name' v') r

append_msg-empty : (r : HaMsg) → append_msg empty r ≡ r
append_msg-empty empty = refl
append_msg-empty (field name v r) =
    append_msg-field name v empty r ∙ ap (field name v) (append_msg-empty r)

good_name-no_stop : (name : List ℕ) → good_name name ≡ true → no_stop name ≡ true
unfolding good_name
good_name-no_stop [] h = ground arith
good_name-no_stop (b ∷ name) h = ground arith

type_of-lt : (v : Value) → type_of v < 6
type_of-lt (string s) = omega arith
type_of-lt (binary s) = omega arith
type_of-lt (structure c) = omega arith
type_of-lt (strings l) = omega arith
type_of-lt (compressed s) = omega arith
type_of-lt (uncompressed c) = omega arith

module _ (signed : Bool) (stringtofield : ℕ → List ℕ → Option Value) where
  nested-read :
      (fields : HaMsg → List ℕ → ℕ → Result HaMsg) (c : HaMsg) (rest : List ℕ)
      → fields empty (wire_fields c ++ (end_netstring ++ rest)) (length (wire_fields c) + 4 + 0)
        ≡ done (append_msg empty c)
      → start_fields signed stringtofield fields (wire c ++ rest) (length (wire c)) ≡ done c
  unfolding strncmp_eq
  nested-read fields c rest e =
      let room : length (wire c) - 4 ≡ length (wire_fields c) + 4 + 0 =
        omega (arith, length-wire_rest c) in
      rw (append_assoc (wire_fields c) end_netstring rest, room, e, append_msg-empty c) refl

  add_pair-read :
      (nested : List ℕ → ℕ → Result HaMsg) (m : HaMsg) (name : List ℕ) (v : Value) (tail : List ℕ)
      (nvlen : ℕ)
      → good_name name ≡ true
      → SendableValue m name v
      → netstringtofield nested
          (type_of v)
          (wire_value v ++ (comma ∷ tail))
          (pos (length (wire_value v)))
        ≡ done v
      → nvlen ≡ 4 + length name + length (wire_value v)
      → add_pair signed stringtofield nested m
          (type_of v)
          nvlen
          (span_of name (b'=' ∷ (wire_value v ++ (comma ∷ tail))))
        ≡ done (append_field m name v)
  unfolding good_name
  add_pair-read nested m [] v tail nvlen h hv e len = ground arith
  add_pair-read nested m (b ∷ name) v tail nvlen h hv e len =
      let size : sub_ℕ nvlen (length (b ∷ name) + 4) ≡ pos (length (wire_value v)) = ground arith in
      rw (size, e) (addraw-Sendable stringtofield m (b ∷ name) v h hv)

  -- A name and a value, as `process_netstring_nvpair` gets them.
  pair-read :
      (nested : List ℕ → ℕ → Result HaMsg) (m : HaMsg) (name : List ℕ) (v : Value) (tail : List ℕ)
      → good_name name ≡ true
      → SendableValue m name v
      → netstringtofield nested
          (type_of v)
          (wire_value v ++ (comma ∷ tail))
          (pos (length (wire_value v)))
        ≡ done v
      → let text = pair_text (type_of v) name (wire_value v) in
        process_netstring_nvpair signed stringtofield nested m
          (text ++ (comma ∷ tail))
          (length text)
        ≡ done (append_field m name v)
  unfolding process_netstring_nvpair
  pair-read nested m name v tail h hv e =
      let t = type_of v in
      let text = pair_text t name (wire_value v) in
      let digit : (not (is_digit (b'0' + t) && true)) ≡ false = ground (arith, type_of-lt v) in
      let type : b'0' + t - b'0' ≡ t = omega arith in
      rw
        (
          digit,
          type,
          append_assoc name (b'=' ∷ wire_value v) (comma ∷ tail),
          name_span-append name (wire_value v ++ (comma ∷ tail)) (good_name-no_stop name h),
        )
        (add_pair-read nested m name v tail (length text) h hv e
          (length-pair_text t name (wire_value v)))

  not_ended : (x s : List ℕ) → strncmp_eq end_netstring (netstring x ++ s) ≡ done false
  unfolding strncmp_eq
  not_ended x s =
      let (d, ds, lt, eq) = first_digit (suc (length x)) (length x) (omega arith) in
      let more = colon ∷ (x ++ comma ∷ []) in
      let other : strncmp_eq end_netstring ((b'0' + d) ∷ (ds ++ more ++ s)) ≡ done false =
        ground arith in
      subst (λ l. strncmp_eq end_netstring (l ++ more ++ s) ≡ done false) (sym eq) other

  fields-step :
      (fuel : ℕ) (m : HaMsg) (s : List ℕ) (n : ℕ) (piece : Piece)
      → 0 < n
      → strncmp_eq end_netstring s ≡ done false
      → peel_netstring signed s n ≡ done piece
      → fields_loop signed stringtofield (suc fuel) m s n
        ≡ add_piece signed stringtofield (fields_loop signed stringtofield fuel) m piece
  unfolding fields_loop
  fields-step fuel m s n piece h e e' = ground arith

  fields-end :
      (fuel : ℕ) (m : HaMsg) (rest : List ℕ) (n : ℕ)
      → fields_loop signed stringtofield (suc fuel) m (end_netstring ++ rest) n ≡ done m
  unfolding fields_loop strncmp_eq
  fields-end fuel m rest n = ground arith

  field-read :
      (fuel : ℕ) (m : HaMsg) (name : List ℕ) (v : Value) (tail : List ℕ) (e : ℕ)
      → good_name name ≡ true
      → SendableValue m name v
      → netstringtofield
          (start_fields signed stringtofield (fields_loop signed stringtofield fuel))
          (type_of v)
          (wire_value v ++ (comma ∷ tail))
          (pos (length (wire_value v)))
        ≡ done v
      → let text = netstring (pair_text (type_of v) name (wire_value v)) in
        length text < 2 ^ 31
        → fields_loop signed stringtofield (suc fuel) m (text ++ tail) (length text + e)
          ≡ fields_loop signed stringtofield fuel (append_field m name v) tail e
  field-read fuel m name v tail e h hv hn small =
      let text = pair_text (type_of v) name (wire_value v) in
      let nested = start_fields signed stringtofield (fields_loop signed stringtofield fuel) in
      let n = length (netstring text) + e in
      let piece = piece_of (length text) (text ++ (comma ∷ tail)) tail e in
      let fields = fields_loop signed stringtofield fuel in
      fields-step fuel m (netstring text ++ tail) n piece (omega (arith, length-netstring text))
        (not_ended text tail)
        (peel-netstring signed text tail e (omega (arith, length-netstring text)))
      ∙ ap (λ r. r >>= λ m'. fields m' tail e) (pair-read nested m name v tail h hv hn)

  mutual
    unfolding wire_value wire_fields SendableValue Sendable

    value-read :
        (v : Value) (before : HaMsg) (name : List ℕ) (fuel : ℕ) (tail : List ℕ)
        → SendableValue before name v
        → length (wire_value v) < 2 ^ 31
        → length (wire_value v) < fuel
        → netstringtofield
            (start_fields signed stringtofield (fields_loop signed stringtofield fuel))
            (type_of v)
            (wire_value v ++ (comma ∷ tail))
            (pos (length (wire_value v)))
          ≡ done v
    value-read (string s) before name fuel tail h small enough =
        rw (copy-append s (comma ∷ tail)) refl
    value-read (binary s) before name fuel tail h small enough =
        rw (copy-append s (comma ∷ tail)) refl
    value-read (compressed s) before name fuel tail h small enough =
        rw (copy-append s (comma ∷ tail)) refl
    value-read (strings []) before name fuel tail (lt, _, _, _) small enough = absurd (omega arith)
    value-read (strings (x ∷ l)) before name fuel tail (_, h, _, _) small enough =
        rw (string_list_unpack-wire (x ∷ l) comma tail h small) refl
    value-read (structure c) before name fuel tail h small enough =
        ap (λ r. r >>= λ c'. done (structure c'))
          (nested-read (fields_loop signed stringtofield fuel) c (comma ∷ tail) (
            fields-read c empty fuel (comma ∷ tail) 0 h (omega (arith, length-wire_rest c))
              (omega (arith, length-wire_rest c))))
    value-read (uncompressed c) before name fuel tail h small enough =
        ap (λ r. r >>= λ c'. done (uncompressed c'))
          (nested-read (fields_loop signed stringtofield fuel) c (comma ∷ tail) (
            fields-read c empty fuel (comma ∷ tail) 0 h (omega (arith, length-wire_rest c))
              (omega (arith, length-wire_rest c))))

    fields-read :
        (r m : HaMsg) (fuel : ℕ) (rest : List ℕ) (e : ℕ)
        → Sendable m r
        → length (wire_fields r) < 2 ^ 31
        → length (wire_fields r) < fuel
        → fields_loop signed stringtofield fuel m
            (wire_fields r ++ (end_netstring ++ rest))
            (length (wire_fields r) + 4 + e)
          ≡ done (append_msg m r)
    fields-read empty m zero rest e h small enough = absurd (omega arith)
    fields-read empty m (suc fuel) rest e h small enough = fields-end fuel m rest (4 + e)
    fields-read (field name v r) m zero rest e h small enough = absurd (omega arith)
    fields-read (field name v r) m (suc fuel) rest e (hn, hv, hr) small enough =
        let text = pair_text (type_of v) name (wire_value v) in
        let tail = wire_fields r ++ (end_netstring ++ rest) in
        let len : length (netstring text ++ wire_fields r)
            ≡ length (netstring text) + length (wire_fields r) =
          length-append (netstring text) (wire_fields r) in
        let n : length (netstring text) + length (wire_fields r) + 4 + e
            ≡ length (netstring text) + (length (wire_fields r) + 4 + e) =
          omega arith in
        let size : length (wire_value v) + length (wire_fields r)
            < length text + length (wire_fields r) =
          omega (arith, length-pair_text (type_of v) name (wire_value v)) in
        let size' : length text < length (netstring text) = omega (arith, length-netstring text) in
        rw (append_assoc (netstring text) (wire_fields r) (end_netstring ++ rest), len, n)
          (field-read fuel m name v tail (length (wire_fields r) + 4 + e) hn hv
              (value-read v m name fuel tail hv (omega arith) (omega arith)) (omega arith)
            ∙ fields-read r (append_field m name v) fuel rest e hr (omega arith) (omega arith))

netstring2msg-wire :
    (signed : Bool) (stringtofield : ℕ → List ℕ → Option Value) (m : HaMsg) (rest : List ℕ)
    → Sendable empty m
    → length (wire m) < 2 ^ 31
    → netstring2msg signed stringtofield (wire m ++ rest) (length (wire m)) ≡ done m
netstring2msg-wire signed stringtofield m rest h small =
    let fuel = suc (length (wire m ++ rest)) in
    nested-read signed stringtofield (fields_loop signed stringtofield fuel) m rest (
      fields-read signed stringtofield m empty fuel rest 0 h (omega (arith, length-wire_rest m))
        (omega (arith, length-wire_rest m, length-append (wire m) rest)))

-- Where the names and strings of a message hold none of the bytes that the format uses, its lists
-- have strings of good bytes, none of them empty, a packed form shorter than MAXLENGTH and names of
-- their own, and its netstring form is shorter than MAXUNCOMPRESSED by more than 65 bytes, `msg2netstring` writes a text, and `netstring2msg` decodes it to the same message,
-- whatever bytes stand behind it and whether `char` is signed or not.
pub netstring2msg-msg2netstring :
    (signed : Bool) (stringtofield : ℕ → List ℕ → Option Value) (m : HaMsg) (rest : List ℕ)
    → Sendable empty m
    → length (wire m) + 65 < maxuncompressed
    → (text : List ℕ) × (msg2netstring m ≡ done text)
      × (netstring2msg signed stringtofield (text ++ rest) (length text) ≡ done m)
netstring2msg-msg2netstring signed stringtofield m rest h small =
    let fits : leb maxuncompressed (length (wire m) + 65) ≡ false = ground arith in
    (
      wire m,
      msg2netstring-wire m (Sendable-Encodable m empty h) (omega arith) ∙ rw fits refl,
      netstring2msg-wire signed stringtofield m rest h (omega arith),
    )
