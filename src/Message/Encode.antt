-- ===== src/Message/Encode.antt =====
-- `msg2netstring_buf` of cl_netstring.c writes the netstring form of a message.
use cluster_glue_import.Prelude.{
  ℕ, suc, ◌^◌, ◌==◌, ltb, true, ◌+◌, ◌-◌, ◌<◌, ◌≤◌, ◌≡◌, refl, ◌∙◌, List, [], ◌∷◌, ◌++◌,
  append_assoc, leb, if◌then◌else◌, length, length-append, arith,
}
use cluster_glue_import.Message.{
  Result, done, refused, fault, ◌>>=◌, HaMsg, empty, field, Value, string, binary, structure,
  strings, compressed, uncompressed, type_of,
}
use cluster_glue_import.Message.Netstring.{
  comma, end_netstring, get_netstringlen, inner_len, start_msg, field_text, fields2netstring,
  value_text, encode_fields, msg2netstring_buf, msg2netstring, max_auth_bytes, maxuncompressed,
}
use cluster_glue_import.Message.Wire.{
  netstring, pair_text, wire_value, wire_fields, wire, EncodableValue, Encodable, length-netstring,
  length-pair_text, length-wire_rest, pack_value-wire, netstringlen-wire, fields_len-wire,
}

abbrev pub fits : List ℕ → ℕ → Result (List ℕ)
fits text room = if leb (length text) room then done text else refused

field_text-wire :
    (name body : List ℕ) (type : ℕ)
    → field_text (4 + length name + length body) name type body
      ≡ netstring (pair_text type name body)
field_text-wire name body type =
    rw (length-pair_text type name body, append_assoc name (b'=' ∷ body) (comma ∷ [])) refl

fields2netstring-wire :
    (name : List ℕ) (v : Value) (room : ℕ)
    → EncodableValue v
    → fields2netstring name v (done (wire_value v)) room
      ≡ fits (netstring (pair_text (type_of v) name (wire_value v))) room
unfolding fields2netstring
fields2netstring-wire name v room h =
    let text = pair_text (type_of v) name (wire_value v) in
    rw (netstringlen-wire v (length name) h) (
      ground (
        arith,
        field_text-wire name (wire_value v) (type_of v),
        length-netstring text,
        length-pair_text (type_of v) name (wire_value v),
      ))

-- What is left of the room after the first of two texts decides on the second.
fits-append :
    (u v : List ℕ) (room : ℕ) (next : ℕ → Result (List ℕ))
    → next (room - length u) ≡ fits v (room - length u)
    → (fits u room >>= λ text. next (room - length text) >>= λ rest. done (text ++ rest))
      ≡ fits (u ++ v) room
fits-append u v room next e = ground (arith, length-append u v)

start_msg-wire :
    (m : HaMsg) (buflen : ℕ) (fields : ℕ → Result (List ℕ))
    → fields (buflen - 4) ≡ fits (wire_fields m ++ end_netstring) (buflen - 4)
    → 4 < buflen
    → start_msg buflen fields ≡ fits (wire m) buflen
start_msg-wire m buflen fields e h = ground arith

fits-done : (text : List ℕ) (room : ℕ) → length text ≤ room → fits text room ≡ done text
fits-done text room h = ground arith

nested_text-wire :
    (c : HaMsg)
    → Encodable c
    → let room = 8 + length (wire_fields c) - 4 in
      encode_fields c room ≡ fits (wire_fields c ++ end_netstring) room
      → (inner_len c >>= λ len. start_msg len (encode_fields c)) ≡ done (wire c)
nested_text-wire c h e =
    let len = 8 + length (wire_fields c) in
    rw (fields_len-wire c h, start_msg-wire c len (encode_fields c) e (omega arith))
      (fits-done (wire c) len (omega (arith, length-wire_rest c)))

mutual
  unfolding value_text wire_value EncodableValue encode_fields wire_fields Encodable

  value_text-wire : (v : Value) → EncodableValue v → value_text v ≡ done (wire_value v)
  value_text-wire (string s) h = refl
  value_text-wire (binary s) h = refl
  value_text-wire (structure c) h =
      nested_text-wire c h (encode_fields-wire c (8 + length (wire_fields c) - 4) h)
  value_text-wire (strings l) h = pack_value-wire l h
  value_text-wire (compressed s) h = refl
  value_text-wire (uncompressed c) h =
      nested_text-wire c h (encode_fields-wire c (8 + length (wire_fields c) - 4) h)

  encode_fields-wire :
      (m : HaMsg) (room : ℕ)
      → Encodable m
      → encode_fields m room ≡ fits (wire_fields m ++ end_netstring) room
  encode_fields-wire empty room h = ground arith
  encode_fields-wire (field name v m) room (hv, hm) =
      let text = netstring (pair_text (type_of v) name (wire_value v)) in
      rw
        (
          value_text-wire v hv,
          fields2netstring-wire name v room hv,
          append_assoc text (wire_fields m) end_netstring,
        )
        (fits-append text (wire_fields m ++ end_netstring) room (encode_fields m)
          (encode_fields-wire m (room - length text) hm))

-- Where no string holds a NUL, no packed list is too long and the netstring form is shorter than
-- 2 ^ 31, in a buffer of more than four bytes: the message is written in its netstring form if the
-- buffer is longer than this form, and refused if the buffer is shorter. In a buffer of just this
-- length a NUL is written behind the buffer's end.
pub msg2netstring_buf-wire :
    (m : HaMsg) (buflen : ℕ)
    → Encodable m
    → length (wire m) < 2 ^ 31
    → 4 < buflen
    → msg2netstring_buf m buflen ≡ (
        if ltb (length (wire m)) buflen
        then done (wire m)
        else if length (wire m) == buflen
        then fault
        else refused)
unfolding msg2netstring_buf
msg2netstring_buf-wire m buflen h small lt =
    rw (start_msg-wire m buflen (encode_fields m) (encode_fields-wire m (buflen - 4) h) lt)
      (ground arith)

-- Under the same condition on the message, `get_netstringlen` is the length of its netstring form,
-- which `msg2netstring_buf` writes in a buffer of one byte more; in a buffer of just this length it
-- writes a NUL behind the buffer's end.
pub get_netstringlen-enough :
    (m : HaMsg)
    → Encodable m
    → length (wire m) < 2 ^ 31
    → (len : ℕ) × (get_netstringlen m ≡ done len)
      × (length (wire m) ≡ len)
      × (msg2netstring_buf m (suc len) ≡ done (wire m))
      × (msg2netstring_buf m len ≡ fault)
unfolding get_netstringlen
get_netstringlen-enough m h small =
    let len = 8 + length (wire_fields m) in
    let count = length-wire_rest m in
    (
      len,
      rw (fields_len-wire m h) (ground (arith, small, count)),
      count,
      msg2netstring_buf-wire m (suc len) h small (omega arith) ∙ ground (arith, count),
      msg2netstring_buf-wire m len h small (omega arith) ∙ ground (arith, count),
    )

-- Under the same condition on the message, `msg2netstring` writes the netstring form exactly if it
-- is shorter than MAXUNCOMPRESSED by more than 65 bytes, and refuses the message otherwise.
pub msg2netstring-wire :
    (m : HaMsg)
    → Encodable m
    → length (wire m) < 2 ^ 31
    → msg2netstring m
      ≡ (if leb maxuncompressed (length (wire m) + 65) then refused else done (wire m))
unfolding get_netstringlen
msg2netstring-wire m h small =
    let len = 8 + length (wire_fields m) in
    let room = len + max_auth_bytes + 1 in
    let count = length-wire_rest m in
    let fits_int : ltb len (2 ^ 31) ≡ true = ground (arith, small, count) in
    rw (fields_len-wire m h, fits_int, msg2netstring_buf-wire m room h small (omega arith))
      (ground (arith, count))
