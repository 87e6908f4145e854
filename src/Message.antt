-- ===== src/Message.antt =====
-- lib/clplumbing/cl_msg.c and cl_msg_types.c: messages as lists of named fields. A name is the
-- bytes of a C string without its terminator, a value is its bytes with their number. Memory is
-- taken to be at hand, and NULL arguments are left out. What a field with a name like `(1)name` is
-- made of, the string form of the types, is the parameter `stringtofield`.
pub mod Netstring
pub mod Decimal
pub mod Scan
pub mod Parse
pub mod Wire
pub mod Encode
pub mod Peel
pub mod Unpack
pub mod Sendable
pub mod RoundTrip
pub mod Ints
pub mod Fields
pub mod Types
pub mod Access
pub mod Ends
pub mod Ended
mod Tests
use cluster_glue_import.Prelude.{
  ℕ, zero, suc, ◌+◌, ◌-◌, ◌*◌, ◌^◌, Bool, true, false, ◌&&◌, ◌||◌, not, List, [], ◌∷◌, ◌++◌, Option,
  none, some, leb, ltb, ◌==◌, if◌then◌else◌, length, codes, bytes_eq, ℤ, pos, negsuc,
}

-- A value, a refusal (HA_FAIL, NULL), a step that C leaves undefined or that an assertion stops (a
-- read outside of the memory, an int that overflows), or too little fuel.
pub data Result {ℓ} (A : Type ℓ) : Type ℓ where
  done : A → Result A
  refused : Result A
  fault : Result A
  unfinished : Result A

infixl 5 ◌>>=◌
abbrev pub ◌>>=◌ {ℓ κ} : {A : Type ℓ} {B : Type κ} → Result A → (A → Result B) → Result B
done a >>= f = f a
refused >>= f = refused
fault >>= f = fault
unfinished >>= f = unfinished

-- The fields in their order; the values by their types. The last message of a list is `empty`.
mutual
  pub data HaMsg : Type 0 where
    empty : HaMsg
    field : List ℕ → Value → HaMsg → HaMsg

  pub data Value : Type 0 where
    string : List ℕ → Value
    binary : List ℕ → Value
    structure : HaMsg → Value
    strings : List (List ℕ) → Value
    compressed : List ℕ → Value
    uncompressed : HaMsg → Value

abbrev pub ft_string : ℕ
ft_string = 0

abbrev pub ft_binary : ℕ
ft_binary = 1

abbrev pub ft_struct : ℕ
ft_struct = 2

abbrev pub ft_list : ℕ
ft_list = 3

abbrev pub ft_compress : ℕ
ft_compress = 4

abbrev pub ft_uncompress : ℕ
ft_uncompress = 5

abbrev pub num_msg_types : ℕ
num_msg_types = 6

abbrev pub type_of : Value → ℕ
type_of (string _) = ft_string
type_of (binary _) = ft_binary
type_of (structure _) = ft_struct
type_of (strings _) = ft_list
type_of (compressed _) = ft_compress
type_of (uncompressed _) = ft_uncompress

abbrev pub nfields : HaMsg → ℕ
nfields empty = 0
nfields (field name v m) = suc (nfields m)

-- A field at the end: the arrays at the index `nfields`, which is then counted up.
abbrev pub append_field : HaMsg → List ℕ → Value → HaMsg
append_field empty name v = field name v empty
append_field (field name' v' m) name v = field name' v' (append_field m name v)

-- A field's value goes to the first field of that name.
unfoldable pub cl_get_value : HaMsg → List ℕ → Option Value
cl_get_value empty name = none
cl_get_value (field name' v m) name = if bytes_eq name name' then some v else cl_get_value m name

abbrev pub as_string : Option Value → Option (List ℕ)
as_string (some (string s)) = some s
as_string _ = none

unfoldable pub cl_get_string : HaMsg → List ℕ → Option (List ℕ)
cl_get_string m name = as_string (cl_get_value m name)

abbrev pub as_binary : Option Value → Option (List ℕ)
as_binary (some (binary s)) = some s
as_binary _ = none

unfoldable pub cl_get_binary : HaMsg → List ℕ → Option (List ℕ)
cl_get_binary m name = as_binary (cl_get_value m name)

-- `none` is -1.
abbrev pub cl_get_type : HaMsg → List ℕ → Option ℕ
cl_get_type m name = elim (cl_get_value m name) [ none ↦ none | some v ↦ some (type_of v) ]

-- The first field of a name gets another value.
unfoldable pub set_value : HaMsg → List ℕ → Value → HaMsg
set_value empty name v = empty
set_value (field name' v' m) name v =
    if bytes_eq name name' then field name' v m else field name' v' (set_value m name v)

-- `cl_msg_remove`, and the shift to the left that `cl_msg_remove_offset` makes.
unfoldable pub cl_msg_remove : HaMsg → List ℕ → Result HaMsg
cl_msg_remove empty name = refused
cl_msg_remove (field name' v m) name =
    if bytes_eq name name' then done m else do m' ← cl_msg_remove m name; done (field name' v m')

abbrev pub special_sym : ℕ
special_sym = 19

abbrev pub newline : ℕ
newline = 10

-- `convert_nl_sym` in the two directions: the bytes up to the end or the first NUL.
unfoldable pub sym_to_nl : ℕ → List ℕ → List ℕ
sym_to_nl sym [] = []
sym_to_nl sym (zero ∷ cs) = zero ∷ cs
sym_to_nl sym (suc c ∷ cs) = (if suc c == sym then newline else suc c) ∷ sym_to_nl sym cs

unfoldable pub nl_to_sym : ℕ → List ℕ → Result (List ℕ)
nl_to_sym sym [] = done []
nl_to_sym sym (zero ∷ cs) = done (zero ∷ cs)
nl_to_sym sym (suc c ∷ cs) =
    if suc c == sym && not (suc c == newline)
    then refused
    else do cs' ← nl_to_sym sym cs; done ((if suc c == newline then sym else suc c) ∷ cs')

abbrev pub starts_with : List ℕ → List ℕ → Bool
starts_with [] s = true
starts_with (p ∷ ps) [] = false
starts_with (p ∷ ps) (c ∷ cs) = p == c && starts_with ps cs

-- MSG_START.
abbrev pub msg_start : List ℕ
msg_start = b'>' ∷ b'>' ∷ b'>' ∷ newline ∷ []

module _ (stringtofield : ℕ → List ℕ → Option Value) where
  -- The part of `add_string_field` for a name that starts with `(c)`.
  unfoldable pub add_typed_field : HaMsg → ℕ → List ℕ → List ℕ → Result HaMsg
  add_typed_field m c name s =
      if ltb c b'0' || ltb b'9' c || c == b'0' || leb num_msg_types (c - b'0') || c == b'5'
      then refused
      else elim (stringtofield (c - b'0') s) [
        | none ↦ refused
        | some v ↦ done (append_field m name v)
      ]

  -- A name of the one byte `(` is read behind its end.
  unfoldable pub add_string_field : HaMsg → List ℕ → List ℕ → Result HaMsg
  add_string_field m [] s = refused
  add_string_field m (b ∷ []) s =
      if b == b'(' then fault else done (append_field m (b ∷ []) (string (sym_to_nl special_sym s)))
  add_string_field m (b ∷ c ∷ []) s =
      if b == b'('
      then refused
      else done (append_field m (b ∷ c ∷ []) (string (sym_to_nl special_sym s)))
  add_string_field m (b ∷ c ∷ d ∷ name) s =
      if b == b'('
      then if d == b')' then add_typed_field m c name s else refused
      else done (append_field m (b ∷ c ∷ d ∷ name) (string (sym_to_nl special_sym s)))

-- The elements of a new list go behind those of an earlier list of the same name.
unfoldable pub extend_list : HaMsg → List ℕ → List (List ℕ) → Result HaMsg
extend_list empty name l = done (field name (strings l) empty)
extend_list (field name' v m) name l = elim (bytes_eq name name') [
  | true ↦ elim v [ strings l' ↦ done (field name' (strings (l' ++ l)) m) | _ ↦ refused ]
  | false ↦ do m' ← extend_list m name l; done (field name' v m')
]

-- `vallen` is the packed length of the list.
abbrev pub add_list_field : HaMsg → List ℕ → List (List ℕ) → Result HaMsg
add_list_field m name [] = refused
add_list_field m name (x ∷ l) = extend_list m name (x ∷ l)

module _ (stringtofield : ℕ → List ℕ → Option Value) where
  -- `fieldtypefuncs[type].addfield`.
  abbrev pub addfield : HaMsg → List ℕ → Value → Result HaMsg
  addfield m name (string s) = add_string_field stringtofield m name s
  addfield m name (strings l) = add_list_field m name l
  addfield m name (binary s) = done (append_field m name (binary s))
  addfield m name (structure c) = done (append_field m name (structure c))
  addfield m name (compressed s) = done (append_field m name (compressed s))
  addfield m name (uncompressed c) = done (append_field m name (uncompressed c))

  -- `ha_msg_addraw` and its low level, which `ha_msg_add` and `ha_msg_nadd_type` call.
  unfoldable pub ha_msg_addraw : HaMsg → List ℕ → Value → Result HaMsg
  ha_msg_addraw m name v =
      if length name == 0
      then refused
      else if starts_with msg_start name
      then refused
      else addfield m name v

  -- The loop of `cl_msg_mod` stops at the first field of the name.
  unfoldable pub cl_msg_mod : HaMsg → List ℕ → Value → Result HaMsg
  cl_msg_mod m name v = elim (cl_get_value m name) [
    | none ↦ ha_msg_addraw m name v
    | some old ↦ if type_of v == type_of old then done (set_value m name v) else refused
  ]

  abbrev pub cl_msg_modstring : HaMsg → List ℕ → List ℕ → Result HaMsg
  cl_msg_modstring m name s = cl_msg_mod m name (string s)
