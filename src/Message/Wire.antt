-- ===== src/Message/Wire.antt =====
-- What the netstring form of a message is, written down without buffers and lengths, for the
-- messages that have one; and the encoder of cl_netstring.c measured by it.
use cluster_glue_import.Prelude.{
  ℕ, ◌+◌, ◌-◌, ◌<◌, ◌≤◌, ◌≡◌, refl, sym, false, List, [], ◌∷◌, ◌++◌, append-nil, append_assoc, ltb,
  length, length-append, pos, arith,
}
use cluster_glue_import.Message.{
  done, HaMsg, empty, field, Value, string, binary, structure, strings, compressed, uncompressed,
  type_of,
}
use cluster_glue_import.Message.Netstring.{
  decimal, bytes_for_int, netstring_extra, colon, comma, start_netstring, end_netstring,
  string_list_pack_length, string_list_pack, has_nul, maxlength, netstringlen, fields_len,
  pack_value,
}
use cluster_glue_import.Message.Decimal.{length-decimal}

abbrev pub netstring : List ℕ → List ℕ
netstring x = decimal (length x) ++ (colon ∷ (x ++ comma ∷ []))

abbrev pub pair_text : ℕ → List ℕ → List ℕ → List ℕ
pair_text type name body = b'(' ∷ (b'0' + type) ∷ b')' ∷ (name ++ b'=' ∷ body)

unfoldable pub wire_strings : List (List ℕ) → List ℕ
wire_strings [] = []
wire_strings (x ∷ l) = netstring x ++ wire_strings l

unfoldable mutual
  pub wire_value : Value → List ℕ
  wire_value (string s) = s
  wire_value (binary s) = s
  wire_value (structure c) = start_netstring ++ (wire_fields c ++ end_netstring)
  wire_value (strings l) = wire_strings l
  wire_value (compressed s) = s
  wire_value (uncompressed c) = start_netstring ++ (wire_fields c ++ end_netstring)

  pub wire_fields : HaMsg → List ℕ
  wire_fields empty = []
  wire_fields (field name v m) =
      netstring (pair_text (type_of v) name (wire_value v)) ++ wire_fields m

abbrev pub wire : HaMsg → List ℕ
wire m = start_netstring ++ (wire_fields m ++ end_netstring)

-- No string has a NUL in it, and a packed list fits the buffer of its own.
unfoldable mutual
  pub EncodableValue : Value → Type 0
  EncodableValue (string s) = has_nul s ≡ false
  EncodableValue (binary s) = Unit
  EncodableValue (structure c) = Encodable c
  EncodableValue (strings l) = string_list_pack_length l < maxlength
  EncodableValue (compressed s) = Unit
  EncodableValue (uncompressed c) = Encodable c

  pub Encodable : HaMsg → Type 0
  Encodable empty = Unit
  Encodable (field name v m) = EncodableValue v × Encodable m

pub length-netstring : (x : List ℕ) → length (netstring x) ≡ netstring_extra (length x)
length-netstring x = omega (
  arith,
  length-append (decimal (length x)) (colon ∷ (x ++ comma ∷ [])),
  length-append x (comma ∷ []),
  length-decimal (length x),
)

pub length-pair_text :
    (type : ℕ) (name body : List ℕ)
    → length (pair_text type name body) ≡ 4 + length name + length body
length-pair_text type name body = omega (arith, length-append name (b'=' ∷ body))

pub length-wire_strings : (l : List (List ℕ)) → length (wire_strings l) ≡ string_list_pack_length l
unfolding wire_strings string_list_pack_length
length-wire_strings [] = refl
length-wire_strings (x ∷ l) =
    omega (
      arith,
      length-append (netstring x) (wire_strings l),
      length-netstring x,
      length-wire_strings l,
    )

pub pack-wire_strings :
    (l : List (List ℕ)) (room : ℕ) (written : List ℕ)
    → string_list_pack_length l ≤ room
    → string_list_pack l room written ≡ written ++ wire_strings l
unfolding wire_strings string_list_pack string_list_pack_length
pack-wire_strings [] room written h = sym (append-nil written)
pack-wire_strings (x ∷ l) room written h =
    let enough : ltb room (2 + length x + bytes_for_int (pos (length x))) ≡ false = ground arith in
    rw (enough, ← append_assoc written (netstring x) (wire_strings l))
      (pack-wire_strings l (room - length (netstring x)) (written ++ netstring x)
        (omega (arith, length-netstring x)))

pub pack_value-wire :
    (l : List (List ℕ))
    → string_list_pack_length l < maxlength
    → pack_value l ≡ done (wire_strings l)
unfolding pack_value
pack_value-wire l h =
    ground (arith, pack-wire_strings l maxlength [] (omega arith), length-wire_strings l)

pub length-wire_rest : (m : HaMsg) → length (wire m) ≡ 8 + length (wire_fields m)
length-wire_rest m = omega (arith, length-append (wire_fields m) end_netstring)

mutual
  unfolding netstringlen wire_value EncodableValue

  pub netstringlen-wire :
      (v : Value) (namlen : ℕ)
      → EncodableValue v
      → netstringlen namlen v ≡ done (4 + namlen + length (wire_value v))
  netstringlen-wire (string s) namlen h = ground arith
  netstringlen-wire (binary s) namlen h = ground arith
  netstringlen-wire (structure c) namlen h = ground (arith, fields_len-wire c h, length-wire_rest c)
  netstringlen-wire (strings l) namlen h = ground (arith, length-wire_strings l)
  netstringlen-wire (compressed s) namlen h = ground arith
  netstringlen-wire (uncompressed c) namlen h =
      ground (arith, fields_len-wire c h, length-wire_rest c)

  pub fields_len-wire : (m : HaMsg) → Encodable m → fields_len m ≡ done (length (wire_fields m))
  fields_len-wire empty h = refl
  fields_len-wire (field name v m) (hv, hm) =
      let text = pair_text (type_of v) name (wire_value v) in
      ground (
        arith,
        netstringlen-wire v (length name) hv,
        fields_len-wire m hm,
        length-append (netstring text) (wire_fields m),
        length-netstring text,
        length-pair_text (type_of v) name (wire_value v),
      )
