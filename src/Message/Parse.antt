-- ===== src/Message/Parse.antt =====
-- lib/clplumbing/cl_netstring.c and cl_msg_types.c: decoding. A pointer is the list of the bytes from
-- there to the end of the memory, and `n` the distance to the end of the text, `smax - sp`.
use cluster_glue_import.Prelude.{
  ℕ, zero, suc, ◌+◌, ◌-◌, ◌*◌, Bool, true, false, ◌&&◌, ◌||◌, not, List, [], ◌∷◌, Option, none,
  some, leb, ltb, ◌==◌, if◌then◌else◌, length, drop, ℤ, pos, negsuc, sub_ℕ, ◌+ℤ◌,
}
use cluster_glue_import.Message.{
  Result, done, refused, fault, unfinished, ◌>>=◌, HaMsg, empty, Value, string, binary, structure,
  compressed, uncompressed, ha_msg_addraw,
}
use cluster_glue_import.Message.Netstring.{colon, comma, start_netstring, end_netstring}
use cluster_glue_import.Message.Scan.{in_int, copy, is_digit, netstring2list}

-- A number, how many bytes it took, the bytes from its end on and how many are left.
pub data Number : Type 0 where
  number_of : ℤ → ℕ → List ℕ → ℕ → Number

abbrev pub times_ten : ℤ → ℤ
times_ten (pos n) = pos (n * 10)
times_ten (negsuc n) = negsuc (n * 10 + 9)

-- `sp[offset] - '0'` as a `char`, `none` where it is above 9. Where `char` is signed, this is below
-- zero for the bytes under `0` and for those from 176 on.
abbrev pub digit : Bool → ℕ → Option ℤ
digit signed c =
    if leb b'0' c && leb c b'9'
    then some (pos (c - b'0'))
    else if not signed
    then none
    else if ltb c b'0'
    then some (sub_ℕ c b'0')
    else if ltb c 176
    then none
    else some (negsuc (303 - c))

abbrev pub add_digit : ℤ → ℤ → Result ℤ
add_digit len ch =
    if in_int (times_ten len) && in_int (times_ten len +ℤ ch)
    then done (times_ten len +ℤ ch)
    else fault

unfoldable pub parse_loop : Bool → List ℕ → ℕ → ℤ → ℕ → Result Number
parse_loop signed s zero len offset = done (number_of len offset s zero)
parse_loop signed [] (suc n) len offset = fault
parse_loop signed (c ∷ cs) (suc n) len offset = elim (digit signed c) [
  | none ↦ done (number_of len offset (c ∷ cs) (suc n))
  | some ch ↦ do len' ← add_digit len ch; parse_loop signed cs n len' (offset + 1)
]

abbrev pub cl_parse_int : Bool → List ℕ → ℕ → Result Number
cl_parse_int signed s n = parse_loop signed s n (pos 0) 0

-- The length before the colon, the bytes from the colon on, those behind the comma and how many
-- are left.
pub data Piece : Type 0 where
  piece_of : ℕ → List ℕ → List ℕ → ℕ → Piece

-- From behind the colon on.
unfoldable pub peel_text : List ℕ → ℕ → ℕ → Result Piece
peel_text s n len = if leb n len then refused else elim (drop len s) [
  | [] ↦ fault
  | c ∷ after ↦ if c == comma then done (piece_of len s after (n - len - 1)) else refused
]

-- The byte is read before its place is compared with the end.
unfoldable pub skip_to_colon : List ℕ → ℕ → ℕ → Result Piece
skip_to_colon [] n len = fault
skip_to_colon (c ∷ cs) zero len = refused
skip_to_colon (c ∷ cs) (suc n) len = elim (c == colon) [
  | true ↦ peel_text cs n len
  | false ↦ skip_to_colon cs n len
]

-- A length below zero and a length without a digit are refused.
abbrev pub peel_number : Number → Result Piece
peel_number (number_of (negsuc _) offset s n) = refused
peel_number (number_of (pos len) zero s n) = refused
peel_number (number_of (pos len) (suc _) s n) = skip_to_colon s n len

unfoldable pub peel_netstring : Bool → List ℕ → ℕ → Result Piece
peel_netstring signed s n =
    if n == 0 then refused else do number ← cl_parse_int signed s n; peel_number number

-- `netstring2string`, which `netstring2binary` calls. A length of -1 is allocated and then copied;
-- one below is more memory than there is.
abbrev pub netstring2string : List ℕ → ℤ → Result (List ℕ)
netstring2string s (pos n) = copy n s
netstring2string s (negsuc zero) = fault
netstring2string s (negsuc (suc k)) = refused

-- `netstring2struct` and `netstring2list` with a length below zero leave the memory.
abbrev pub with_length : ℤ → (ℕ → Result Value) → Result Value
with_length (pos n) f = f n
with_length (negsuc k) f = fault

-- `fieldtypefuncs[type].netstringtofield`; `nested` decodes a message. There are six types.
abbrev pub netstringtofield : (List ℕ → ℕ → Result HaMsg) → ℕ → List ℕ → ℤ → Result Value
netstringtofield nested zero s vlen = do v ← netstring2string s vlen; done (string v)
netstringtofield nested (suc zero) s vlen = do v ← netstring2string s vlen; done (binary v)
netstringtofield nested (suc (suc zero)) s vlen =
    with_length vlen (λ n. nested s n >>= λ c. done (structure c))
netstringtofield nested (suc (suc (suc zero))) s vlen = with_length vlen (netstring2list s)
netstringtofield nested (suc (suc (suc (suc zero)))) s vlen = do
  v ← netstring2string s vlen
  done (compressed v)
netstringtofield nested (suc (suc (suc (suc (suc zero))))) s vlen =
    with_length vlen (λ n. nested s n >>= λ c. done (uncompressed c))
netstringtofield nested (suc (suc (suc (suc (suc (suc _)))))) s vlen = fault

-- `strcspn(s, "=")`: the bytes before the first `=` or NUL, and the bytes from there on.
pub data Span : Type 0 where
  span_of : List ℕ → List ℕ → Span

unfoldable pub name_span : List ℕ → Result Span
name_span [] = fault
name_span (c ∷ cs) = elim (c == b'=' || c == 0) [
  | true ↦ done (span_of [] (c ∷ cs))
  | false ↦ elim (name_span cs) [
    | done sp ↦ elim sp [ span_of name rest ↦ done (span_of (c ∷ name) rest) ]
    | refused ↦ refused
    | fault ↦ fault
    | unfinished ↦ unfinished
  ]
]

-- `strncmp(s, prefix, length) == 0`, which stops at the first difference.
unfoldable pub strncmp_eq : List ℕ → List ℕ → Result Bool
strncmp_eq [] s = done true
strncmp_eq (p ∷ ps) [] = fault
strncmp_eq (p ∷ ps) (c ∷ cs) = elim (p == c) [ true ↦ strncmp_eq ps cs | false ↦ done false ]

module _ (signed : Bool) (stringtofield : ℕ → List ℕ → Option Value) where
  -- `process_netstring_nvpair` from the name on: a name that is empty or that no `=` follows is
  -- refused.
  abbrev pub add_pair : (List ℕ → ℕ → Result HaMsg) → HaMsg → ℕ → ℕ → Span → Result HaMsg
  add_pair nested m type nvlen (span_of [] rest) = refused
  add_pair nested m type nvlen (span_of (b ∷ name) []) = refused
  add_pair nested m type nvlen (span_of (b ∷ name) (c ∷ s)) =
      if not (c == b'=') then refused else do
        v ← netstringtofield nested type s (sub_ℕ nvlen (length (b ∷ name) + 4))
        ha_msg_addraw stringtofield m (b ∷ name) v

  -- The assertions on `(`, the type and `)` come first.
  unfoldable pub process_netstring_nvpair :
      (List ℕ → ℕ → Result HaMsg) → HaMsg → List ℕ → ℕ → Result HaMsg
  process_netstring_nvpair nested m (p ∷ t ∷ q ∷ s) nvlen =
      if not (p == b'(' && is_digit t && q == b')')
      then fault
      else do sp ← name_span s; add_pair nested m (t - b'0') nvlen sp
  process_netstring_nvpair nested m _ nvlen = fault

  -- `netstring2msg_rec`: the start, then the loop over the fields.
  abbrev pub start_fields : (HaMsg → List ℕ → ℕ → Result HaMsg) → List ℕ → ℕ → Result HaMsg
  start_fields fields s n = do
    started ← strncmp_eq start_netstring s
    elim started [ true ↦ fields empty (drop 4 s) (n - 4) | false ↦ refused ]

  -- One round of the loop, behind the test for its end.
  abbrev pub add_piece : (HaMsg → List ℕ → ℕ → Result HaMsg) → HaMsg → Piece → Result HaMsg
  add_piece fields m (piece_of len text after left) = do
    m' ← process_netstring_nvpair (start_fields fields) m text len
    fields m' after left

  -- The loop, on fuel. The end of the text ends it as well as the mark does.
  unfoldable pub fields_loop : ℕ → HaMsg → List ℕ → ℕ → Result HaMsg
  fields_loop zero m s n = unfinished
  fields_loop (suc fuel) m s n = elim (n == 0) [
    | true ↦ done m
    | false ↦ do
      ended ← strncmp_eq end_netstring s
      elim ended [
        | true ↦ done m
        | false ↦ do piece ← peel_netstring signed s n; add_piece (fields_loop fuel) m piece
      ]
  ]

  -- `netstring2msg` without authentication. Every round reads a byte.
  abbrev pub netstring2msg : List ℕ → ℕ → Result HaMsg
  netstring2msg s n = start_fields (fields_loop (suc (length s))) s n
