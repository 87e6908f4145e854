-- ===== src/Message/Types.antt =====
-- The type of a field never changes (cl_msg.c): adding and changing fields.
use cluster_glue_import.Prelude.{
  ℕ, ◌-◌, ◌≡◌, refl, subst, List, [], ◌∷◌, ◌++◌, Option, some, none, ◌==◌, bytes_eq, length, arith,
  inl, inr, Bool-cases, Option-cases,
}
use cluster_glue_import.Message.{
  done, refused, fault, HaMsg, empty, field, Value, string, binary, structure, strings, compressed,
  uncompressed, type_of, append_field, cl_get_value, cl_get_type, set_value, add_typed_field,
  add_string_field, extend_list, addfield, ha_msg_addraw, cl_msg_mod, starts_with, msg_start,
}
use cluster_glue_import.Message.Ends.{Ends, Ends-bind, Ends-if, Ends-elim, Ends-option}

-- Every name that has a type keeps it.
abbrev KeepsTypes : HaMsg → HaMsg → Type 0
KeepsTypes m m' =
    (other : List ℕ) (t : ℕ) → cl_get_type m other ≡ some t → cl_get_type m' other ≡ some t

KeepsTypes-field :
    (name : List ℕ) (v : Value) (m m' : HaMsg)
    → KeepsTypes m m'
    → KeepsTypes (field name v m) (field name v m')
unfolding cl_get_value
KeepsTypes-field name v m m' h other t e = elim (Bool-cases (bytes_eq other name)) [
  | inl eq ↦ ground (arith, eq, e)
  | inr ne ↦
      let e' : cl_get_type m other ≡ some t = ground (arith, ne, e) in
      ground (arith, ne, h other t e')
]

KeepsTypes-value :
    (name : List ℕ) (v v' : Value) (m : HaMsg)
    → type_of v ≡ type_of v'
    → KeepsTypes (field name v m) (field name v' m)
unfolding cl_get_value
KeepsTypes-value name v v' m h other t e = elim (Bool-cases (bytes_eq other name)) [
  | inl eq ↦ ground (arith, eq, e, h)
  | inr ne ↦ ground (arith, ne, e)
]

KeepsTypes-append : (m : HaMsg) (name : List ℕ) (v : Value) → KeepsTypes m (append_field m name v)
unfolding cl_get_value
KeepsTypes-append empty name v other t e = ground (arith, e)
KeepsTypes-append (field name' v' m) name v other t e =
    KeepsTypes-field name' v' m (append_field m name v) (KeepsTypes-append m name v) other t e

KeepsTypes-set :
    (m : HaMsg) (name : List ℕ) (v old : Value)
    → cl_get_value m name ≡ some old
    → type_of v ≡ type_of old
    → KeepsTypes m (set_value m name v)
unfolding cl_get_value set_value
KeepsTypes-set empty name v old h h' = ground (arith, h)
KeepsTypes-set (field name' v' m) name v old h h' = elim (Bool-cases (bytes_eq name name')) [
  | inl eq ↦
      let same : type_of v' ≡ type_of v = ground (arith, eq, h, h') in
      rw eq (KeepsTypes-value name' v' v m same)
  | inr ne ↦
      let found : cl_get_value m name ≡ some old = ground (arith, ne, h) in
      rw ne
        (KeepsTypes-field name' v' m (set_value m name v) (KeepsTypes-set m name v old found h'))
]

module _ (stringtofield : ℕ → List ℕ → Option Value) where
  typed-KeepsTypes :
      (m : HaMsg) (c : ℕ) (name s : List ℕ)
      → Ends (KeepsTypes m) (add_typed_field stringtofield m c name s)
  unfolding add_typed_field
  typed-KeepsTypes m c name s =
      Ends-if (KeepsTypes m) _ refused
        (elim (stringtofield (c - b'0') s) [
          | none ↦ refused
          | some v ↦ done (append_field m name v)
        ])
        tt
        (Ends-option (KeepsTypes m) (stringtofield (c - b'0') s) refused _ tt
          (λ v. KeepsTypes-append m name v))

  string-KeepsTypes :
      (m : HaMsg) (name s : List ℕ) → Ends (KeepsTypes m) (add_string_field stringtofield m name s)
  unfolding add_string_field
  string-KeepsTypes m [] s = tt
  string-KeepsTypes m (b ∷ []) s =
      Ends-if (KeepsTypes m) (b == b'(') fault _ tt (KeepsTypes-append m (b ∷ []) _)
  string-KeepsTypes m (b ∷ c ∷ []) s =
      Ends-if (KeepsTypes m) (b == b'(') refused _ tt (KeepsTypes-append m (b ∷ c ∷ []) _)
  string-KeepsTypes m (b ∷ c ∷ d ∷ name) s =
      Ends-if (KeepsTypes m) (b == b'(') _ _
        (Ends-if (KeepsTypes m) (d == b')') _ refused (typed-KeepsTypes m c name s) tt)
        (KeepsTypes-append m (b ∷ c ∷ d ∷ name) _)

  list-KeepsTypes :
      (m : HaMsg) (name : List ℕ) (l : List (List ℕ)) → Ends (KeepsTypes m) (extend_list m name l)
  unfolding extend_list
  list-KeepsTypes empty name l = KeepsTypes-append empty name (strings l)
  list-KeepsTypes (field name' v m) name l =
      Ends-elim (KeepsTypes (field name' v m)) (bytes_eq name name') _ _ (merged v) (
        Ends-bind (KeepsTypes m) (KeepsTypes (field name' v m)) (extend_list m name l) _
          (list-KeepsTypes m name l) (λ m' h. KeepsTypes-field name' v m m' h))
    where
      merged :
          (v : Value)
          → Ends
              (KeepsTypes (field name' v m))
              (elim v [ strings l' ↦ done (field name' (strings (l' ++ l)) m) | _ ↦ refused ])
      merged (string s) = tt
      merged (binary s) = tt
      merged (structure c) = tt
      merged (strings l') = KeepsTypes-value name' (strings l') (strings (l' ++ l)) m refl
      merged (compressed s) = tt
      merged (uncompressed c) = tt

  addfield-KeepsTypes :
      (m : HaMsg) (name : List ℕ) (v : Value)
      → Ends (KeepsTypes m) (addfield stringtofield m name v)
  addfield-KeepsTypes m name (string s) = string-KeepsTypes m name s
  addfield-KeepsTypes m name (binary s) = KeepsTypes-append m name (binary s)
  addfield-KeepsTypes m name (structure c) = KeepsTypes-append m name (structure c)
  addfield-KeepsTypes m name (strings []) = tt
  addfield-KeepsTypes m name (strings (x ∷ l)) = list-KeepsTypes m name (x ∷ l)
  addfield-KeepsTypes m name (compressed s) = KeepsTypes-append m name (compressed s)
  addfield-KeepsTypes m name (uncompressed c) = KeepsTypes-append m name (uncompressed c)

  addraw-KeepsTypes :
      (m : HaMsg) (name : List ℕ) (v : Value)
      → Ends (KeepsTypes m) (ha_msg_addraw stringtofield m name v)
  unfolding ha_msg_addraw
  addraw-KeepsTypes m name v = Ends-if (KeepsTypes m) (length name == 0) refused _ tt (
      Ends-if (KeepsTypes m) (starts_with msg_start name) refused _ tt
        (addfield-KeepsTypes m name v))

  added-KeepsTypes :
      (m m' : HaMsg) (name : List ℕ) (v : Value)
      → ha_msg_addraw stringtofield m name v ≡ done m'
      → KeepsTypes m m'
  added-KeepsTypes m m' name v e = subst (Ends (KeepsTypes m)) e (addraw-KeepsTypes m name v)

  -- What `ha_msg_addraw` returns without failing, a string of the typed form and a list that goes
  -- behind an earlier one included, has for every name that had a field a first field of the same
  -- type.
  pub cl_get_type-addraw :
      (m m' : HaMsg) (name other : List ℕ) (v : Value) (t : ℕ)
      → ha_msg_addraw stringtofield m name v ≡ done m'
      → cl_get_type m other ≡ some t
      → cl_get_type m' other ≡ some t
  cl_get_type-addraw m m' name other v t e = added-KeepsTypes m m' name v e other t

  -- Where `cl_msg_mod` does not fail, whether it replaces a value or adds a field, every name that
  -- had a field has a first field of the same type.
  pub cl_get_type-mod :
      (m m' : HaMsg) (name other : List ℕ) (v : Value) (t : ℕ)
      → cl_msg_mod stringtofield m name v ≡ done m'
      → cl_get_type m other ≡ some t
      → cl_get_type m' other ≡ some t
  unfolding cl_msg_mod
  cl_get_type-mod m m' name other v t e = elim (Option-cases (cl_get_value m name)) [
    | inl eq ↦ cl_get_type-addraw m m' name other v t (ground (arith, eq, e))
    | inr found ↦
        let (old, eq) = found in
        let set : set_value m name v ≡ m' = ground (arith, eq, e) in
        let same : type_of v ≡ type_of old = ground (arith, eq, e) in
        subst (KeepsTypes m) set (KeepsTypes-set m name v old eq same) other t
  ]
