-- ===== src/Message/Access.antt =====
-- The functions of lib/clplumbing/cl_msg.c that add, change and read fields of one type.
use cluster_glue_import.Prelude.{
  ℕ, zero, suc, ◌≡◌, Bool, true, List, Option, none, some, ◌==◌, if◌then◌else◌, length, arith, inl,
  inr, Option-cases,
}
use cluster_glue_import.Message.{
  Result, done, refused, HaMsg, empty, field, Value, string, binary, structure, uncompressed,
  type_of, cl_get_value, cl_get_binary, ha_msg_addraw, cl_msg_mod, append_field, set_value,
  ft_binary, ◌>>=◌,
}
use cluster_glue_import.Message.Sendable.{good_name, SendableValue, addraw-Sendable}
use cluster_glue_import.Message.Fields.{get-set, get-append}

abbrev pub uuid_size : ℕ
uuid_size = 16

-- A binary value of another size than that of a uuid is refused.
unfoldable pub cl_get_uuid : HaMsg → List ℕ → Result (List ℕ)
cl_get_uuid m name = elim (cl_get_binary m name) [
  | none ↦ refused
  | some s ↦ if length s == uuid_size then done s else refused
]

module _ (stringtofield : ℕ → List ℕ → Option Value) where
  abbrev pub ha_msg_add : HaMsg → List ℕ → List ℕ → Result HaMsg
  ha_msg_add m name s = ha_msg_addraw stringtofield m name (string s)

  abbrev pub ha_msg_addbin : HaMsg → List ℕ → List ℕ → Result HaMsg
  ha_msg_addbin m name s = ha_msg_addraw stringtofield m name (binary s)

  abbrev pub ha_msg_adduuid : HaMsg → List ℕ → List ℕ → Result HaMsg
  ha_msg_adduuid m name u = ha_msg_addraw stringtofield m name (binary u)

  -- A child that is large is only noted in a comment of the code.
  abbrev pub ha_msg_addstruct : HaMsg → List ℕ → HaMsg → Result HaMsg
  ha_msg_addstruct m name c = ha_msg_addraw stringtofield m name (structure c)

  abbrev pub ha_msg_addstruct_compress : Bool → HaMsg → List ℕ → HaMsg → Result HaMsg
  ha_msg_addstruct_compress use_traditional_compression m name c =
      if use_traditional_compression
      then ha_msg_addraw stringtofield m name (structure c)
      else ha_msg_addraw stringtofield m name (uncompressed c)

  abbrev pub cl_msg_modstruct : HaMsg → List ℕ → HaMsg → Result HaMsg
  cl_msg_modstruct m name c = cl_msg_mod stringtofield m name (structure c)

  abbrev pub cl_msg_modbin : HaMsg → List ℕ → List ℕ → Result HaMsg
  cl_msg_modbin m name s = cl_msg_mod stringtofield m name (binary s)

  abbrev pub cl_msg_moduuid : HaMsg → List ℕ → List ℕ → Result HaMsg
  cl_msg_moduuid m name u = cl_msg_mod stringtofield m name (binary u)

-- The field with the index gets another value, of any type.
unfoldable pub cl_msg_replace : HaMsg → ℕ → Value → Result HaMsg
cl_msg_replace empty index v = refused
cl_msg_replace (field name old m) zero v = done (field name v m)
cl_msg_replace (field name old m) (suc index) v = do
  m' ← cl_msg_replace m index v
  done (field name old m')

get_uuid-found :
    (m : HaMsg) (name u : List ℕ)
    → cl_get_value m name ≡ some (binary u)
    → length u ≡ uuid_size
    → cl_get_uuid m name ≡ done u
unfolding cl_get_uuid cl_get_binary
get_uuid-found m name u e h = ground (arith, e, h)

-- For a name that is not empty, does not start with `(` or MSG_START and holds no `=` and no NUL: if
-- the message has no field of that name, or the first one is binary, then `cl_msg_moduuid` succeeds,
-- and `cl_get_uuid` reads the same sixteen bytes.
pub get_uuid-moduuid :
    (stringtofield : ℕ → List ℕ → Option Value) (m : HaMsg) (name u : List ℕ)
    → good_name name ≡ true
    → length u ≡ uuid_size
    → ((v : Value) → cl_get_value m name ≡ some v → type_of v ≡ ft_binary)
    → (m' : HaMsg) × (cl_msg_moduuid stringtofield m name u ≡ done m')
      × (cl_get_uuid m' name ≡ done u)
unfolding cl_msg_mod SendableValue
get_uuid-moduuid stringtofield m name u hn h ht = elim (Option-cases (cl_get_value m name)) [
  | inl e ↦
      let m' = append_field m name (binary u) in
      (
        m',
        ground (arith, e, addraw-Sendable stringtofield m name (binary u) hn tt),
        get_uuid-found m' name u (get-append m name (binary u) e) h,
      )
  | inr found ↦
      let (old, e) = found in
      let m' = set_value m name (binary u) in
      (
        m',
        ground (arith, e, ht old e),
        get_uuid-found m' name u (get-set m name (binary u) old e) h,
      )
]
