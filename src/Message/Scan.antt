-- ===== src/Message/Scan.antt =====
-- `sscanf` of a number, and packed lists of strings (lib/clplumbing/cl_msg_types.c) taken apart. A
-- pointer is the list of the bytes from there to the end of the memory.
use cluster_glue_import.Prelude.{
  ℕ, zero, suc, ◌+◌, ◌-◌, ◌*◌, ◌^◌, Bool, true, false, ◌&&◌, ◌||◌, not, List, [], ◌∷◌, ◌++◌, Option,
  none, some, leb, ltb, ◌==◌, if◌then◌else◌, length, take, drop, ℤ, pos, negsuc, sub_ℕ,
}
use cluster_glue_import.Message.{Result, done, refused, fault, unfinished, ◌>>=◌, Value, strings}
use cluster_glue_import.Message.Netstring.{colon}

abbrev pub in_int : ℤ → Bool
in_int (pos n) = ltb n (2 ^ 31)
in_int (negsuc n) = ltb n (2 ^ 31)

-- `memcpy` of so many bytes.
abbrev pub copy : ℕ → List ℕ → Result (List ℕ)
copy n s = if leb n (length s) then done (take n s) else fault

abbrev pub is_space : ℕ → Bool
is_space c = c == b' ' || (leb 9 c && leb c 13)

abbrev pub is_digit : ℕ → Bool
is_digit c = leb b'0' c && leb c b'9'

-- `sscanf(s, "%d", &n)`: white space, a sign, digits. `none` where there is no digit; a number
-- that no int holds is undefined.
unfoldable pub scan_digits : List ℕ → ℕ → Result ℕ
scan_digits [] n = fault
scan_digits (c ∷ cs) n = elim (is_digit c) [
  | true ↦ scan_digits cs (n * 10 + (c - b'0'))
  | false ↦ done n
]

abbrev pub to_int : ℤ → Result (Option ℤ)
to_int n = if in_int n then done (some n) else fault

abbrev pub negative : ℕ → ℤ
negative n = sub_ℕ 0 n

abbrev pub scan_number : Bool → List ℕ → Result (Option ℤ)
scan_number minus [] = fault
scan_number minus (c ∷ cs) =
    if not (is_digit c)
    then done none
    else do n ← scan_digits (c ∷ cs) 0; to_int (if minus then negative n else pos n)

unfoldable pub sscanf_int : List ℕ → Result (Option ℤ)
sscanf_int [] = fault
sscanf_int (c ∷ cs) = elim (is_space c) [
  | true ↦ sscanf_int cs
  | false ↦
      if c == b'-'
      then scan_number true cs
      else if c == b'+'
      then scan_number false cs
      else scan_number false (c ∷ cs)
]

-- The bytes before the first NUL.
abbrev pub c_string : List ℕ → List ℕ
c_string [] = []
c_string (zero ∷ cs) = []
c_string (suc c ∷ cs) = suc c ∷ c_string cs

-- What follows the colon; `none` where a NUL comes first.
unfoldable pub after_colon : List ℕ → Result (Option (List ℕ))
after_colon [] = fault
after_colon (c ∷ cs) = elim (c == colon) [
  | true ↦ done (some cs)
  | false ↦ if c == 0 then done none else after_colon cs
]

-- One round of the loop of `string_list_unpack`, from behind the colon on: the byte behind the
-- string is read, whatever it is.
abbrev pub unpack_item :
    ℕ → List ℕ → (List ℕ → List ℕ → Result (List (List ℕ))) → Result (List (List ℕ))
unpack_item len s next = do
  item ← copy len s
  elim (drop len s) [ [] ↦ fault | c ∷ after ↦ next (c_string item) after ]

abbrev pub unpack_len :
    Option ℤ
    → List ℕ
    → List (List ℕ)
    → (List ℕ → List ℕ → Result (List (List ℕ)))
    → Result (List (List ℕ))
unpack_len none s list next = done list
unpack_len (some (negsuc _)) s list next = done []
unpack_len (some (pos zero)) s list next = done []
unpack_len (some (pos (suc l))) s list next = do
  rest ← after_colon s
  elim rest [ none ↦ done list | some s' ↦ unpack_item (suc l) s' next ]

-- The empty list is NULL. `start` is the pointer at the start, `length` the length given.
unfoldable pub unpack_loop : ℕ → List ℕ → ℕ → ℕ → List (List ℕ) → Result (List (List ℕ))
unpack_loop zero s total n list = unfinished
unpack_loop (suc fuel) [] total n list = fault
unpack_loop (suc fuel) (c ∷ cs) total n list =
    if c == 0 || leb (n + length (c ∷ cs)) total then done list else do
      len ← sscanf_int (c ∷ cs)
      unpack_len len (c ∷ cs) list
          (λ item after. unpack_loop fuel after total n (list ++ item ∷ []))

abbrev pub string_list_unpack : List ℕ → ℕ → Result (List (List ℕ))
string_list_unpack s n = unpack_loop (suc (length s)) s (length s) n []

abbrev pub netstring2list : List ℕ → ℕ → Result Value
netstring2list s n = do
  list ← string_list_unpack s n
  elim list [ [] ↦ refused | x ∷ l ↦ done (strings (x ∷ l)) ]
