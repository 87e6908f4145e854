-- ===== src/Message/Netstring.antt =====
-- lib/clplumbing/cl_netstring.c, and the netstring form of the field types in cl_msg_types.c:
-- encoding. `room` is the distance to the end of the buffer, `smax - sp`.
use cluster_glue_import.Prelude.{
  ◌^◌, ◌*◌, ℕ, zero, suc, ◌+◌, ◌-◌, ◌/◌, ◌%◌, Bool, true, false, List, [], ◌∷◌, ◌++◌, leb, ltb,
  ◌==◌, if◌then◌else◌, length, ℤ, pos, negsuc,
}
use cluster_glue_import.Message.{
  Result, done, refused, fault, ◌>>=◌, HaMsg, empty, field, Value, string, binary, structure,
  strings, compressed, uncompressed, type_of, newline,
}

-- The digits of a number, `%d`; the fuel is the number itself.
unfoldable pub digits : ℕ → ℕ → List ℕ
digits zero n = []
digits (suc k) n = elim (ltb n 10) [
  | true ↦ (b'0' + n) ∷ []
  | false ↦ digits k (n / 10) ++ (b'0' + n % 10) ∷ []
]

abbrev pub decimal : ℕ → List ℕ
decimal n = digits (suc n) n

-- The loop of `bytes_for_int`, on the same fuel.
unfoldable pub digit_count : ℕ → ℕ → ℕ
digit_count zero x = 0
digit_count (suc k) x = elim (ltb 9 x) [ true ↦ suc (digit_count k (x / 10)) | false ↦ 0 ]

abbrev pub bytes_for_int : ℤ → ℕ
bytes_for_int (pos x) = digit_count x x + 1
bytes_for_int (negsuc x) = 1 + digit_count (suc x) (suc x) + 1

abbrev pub netstring_extra : ℕ → ℕ
netstring_extra x = bytes_for_int (pos x) + x + 2

abbrev pub colon : ℕ
colon = b':'

abbrev pub comma : ℕ
comma = b','

abbrev pub start_netstring : List ℕ
start_netstring = b'#' ∷ b'#' ∷ b'#' ∷ newline ∷ []

abbrev pub end_netstring : List ℕ
end_netstring = b'%' ∷ b'%' ∷ b'%' ∷ newline ∷ []

-- What `sprintf` writes for `%d:%s,`.
abbrev pub item_text : List ℕ → List ℕ
item_text x = decimal (length x) ++ (colon ∷ (x ++ comma ∷ []))

-- Lists of strings.
unfoldable pub string_list_pack_length : List (List ℕ) → ℕ
string_list_pack_length [] = 0
string_list_pack_length (x ∷ l) =
    bytes_for_int (pos (length x)) + length x + 2 + string_list_pack_length l

-- The loop, with what is written before. A shortage of room returns 0.
unfoldable pub string_list_pack : List (List ℕ) → ℕ → List ℕ → List ℕ
string_list_pack [] room written = written
string_list_pack (x ∷ l) room written =
    if ltb room (2 + length x + bytes_for_int (pos (length x)))
    then []
    else string_list_pack l (room - length (item_text x)) (written ++ item_text x)

unfoldable pub has_nul : List ℕ → Bool
has_nul [] = false
has_nul (zero ∷ cs) = true
has_nul (suc c ∷ cs) = has_nul cs

abbrev pub binary_netstringlen : ℕ → ℕ → ℕ
binary_netstringlen namlen vallen = 3 + namlen + 1 + vallen

abbrev pub maxlength : ℕ
maxlength = 1024

-- `fieldtypefuncs[type].netstringlen`, and the loop of `get_netstringlen`.
unfoldable mutual
  pub netstringlen : ℕ → Value → Result ℕ
  netstringlen namlen (string s) =
      if has_nul s then fault else done (binary_netstringlen namlen (length s))
  netstringlen namlen (binary s) = done (binary_netstringlen namlen (length s))
  netstringlen namlen (structure c) = do len ← fields_len c; done (3 + namlen + 1 + (8 + len))
  netstringlen namlen (strings l) = done (3 + namlen + 1 + string_list_pack_length l)
  netstringlen namlen (compressed s) = done (binary_netstringlen namlen (length s))
  netstringlen namlen (uncompressed c) = do len ← fields_len c; done (3 + namlen + 1 + (8 + len))

  pub fields_len : HaMsg → Result ℕ
  fields_len empty = done 0
  fields_len (field name v m) = do
    len ← netstringlen (length name) v
    total ← fields_len m
    done (netstring_extra len + total)

-- The sum is an int, and so is every part of it, which is less.
unfoldable pub get_netstringlen : HaMsg → Result ℕ
get_netstringlen m = do len ← fields_len m; if ltb (8 + len) (2 ^ 31) then done (8 + len) else fault

-- The same for a message inside another one, whose length was taken before.
abbrev pub inner_len : HaMsg → Result ℕ
inner_len c = do len ← fields_len c; done (8 + len)

-- The list is packed in a buffer of its own.
unfoldable pub pack_value : List (List ℕ) → Result (List ℕ)
pack_value l =
    let packed = string_list_pack l maxlength [] in
    if leb maxlength (string_list_pack_length l)
    then refused
    else if length packed == string_list_pack_length l
    then done packed
    else refused

-- `msg2netstring_buf` writes the start and its NUL before it looks at the room.
abbrev pub start_msg : ℕ → (ℕ → Result (List ℕ)) → Result (List ℕ)
start_msg buflen fields =
    if ltb buflen 5 then fault else do rest ← fields (buflen - 4); done (start_netstring ++ rest)

-- `fields2netstring` around the value's bytes.
abbrev pub field_text : ℕ → List ℕ → ℕ → List ℕ → List ℕ
field_text fieldlen name type body =
    decimal fieldlen
    ++ (colon ∷ b'(' ∷ (b'0' + type) ∷ b')' ∷ (name ++ (b'=' ∷ (body ++ comma ∷ []))))

unfoldable pub fields2netstring : List ℕ → Value → Result (List ℕ) → ℕ → Result (List ℕ)
fields2netstring name v text room = do
  fieldlen ← netstringlen (length name) v
  if ltb room (netstring_extra fieldlen)
      then refused
      else do body ← text; done (field_text fieldlen name (type_of v) body)

unfoldable mutual
  -- The bytes of a value.
  pub value_text : Value → Result (List ℕ)
  value_text (string s) = done s
  value_text (binary s) = done s
  value_text (compressed s) = done s
  value_text (structure c) = do len ← inner_len c; start_msg len (encode_fields c)
  value_text (uncompressed c) = do len ← inner_len c; start_msg len (encode_fields c)
  value_text (strings l) = pack_value l

  -- The loop over the fields, and the end.
  pub encode_fields : HaMsg → ℕ → Result (List ℕ)
  encode_fields empty room = if ltb room 4 then refused else done end_netstring
  encode_fields (field name v m) room = do
    text ← fields2netstring name v (value_text v) room
    rest ← encode_fields m (room - length text)
    done (text ++ rest)

-- The NUL behind MSG_END_NETSTRING is written outside of a buffer that the text fills. Behind a
-- message inside another one there is the room for the outer one's comma.
unfoldable pub msg2netstring_buf : HaMsg → ℕ → Result (List ℕ)
msg2netstring_buf m buflen = do
  text ← start_msg buflen (encode_fields m)
  if length text == buflen then fault else done text

abbrev pub max_auth_bytes : ℕ
max_auth_bytes = 64

abbrev pub maxuncompressed : ℕ
maxuncompressed = 2048 * 1024

-- `msg2netstring_ll` without authentication.
abbrev pub msg2netstring : HaMsg → Result (List ℕ)
msg2netstring m = do
  len ← get_netstringlen m
  if leb maxuncompressed (len + max_auth_bytes + 1)
      then refused
      else msg2netstring_buf m (len + max_auth_bytes + 1)
