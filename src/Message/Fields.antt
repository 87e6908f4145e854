-- ===== src/Message/Fields.antt =====
-- The fields of a message: looking up, changing, adding and removing (cl_msg.c).
use cluster_glue_import.Prelude.{
  ℕ, zero, suc, ◌≡◌, ◌≢◌, refl, ap, subst, true, false, ◌&&◌, not, List, [], ◌∷◌, Option, some,
  none, ◌==◌, if◌then◌else◌, bytes_eq, bytes_eq_iff, arith, inl, inr, Bool-cases, Option-cases,
}
use cluster_glue_import.Message.{
  Result, done, refused, fault, unfinished, HaMsg, empty, field, Value, string, type_of, nfields,
  append_field, cl_get_value, cl_get_string, as_string, set_value, cl_msg_remove, sym_to_nl,
  nl_to_sym, cl_msg_mod, cl_msg_modstring, ft_string, newline,
}
use cluster_glue_import.Message.Sendable.{good_name, plain, addraw-string, plain-sym_to_nl}

bytes_eq_refl : (u : List ℕ) → bytes_eq u u ≡ true
bytes_eq_refl u = (bytes_eq_iff u u).1 refl

pub get-set :
    (m : HaMsg) (name : List ℕ) (v old : Value)
    → cl_get_value m name ≡ some old
    → cl_get_value (set_value m name v) name ≡ some v
unfolding cl_get_value set_value
get-set empty name v old h = ground arith
get-set (field name' v' m) name v old h = elim (Bool-cases (bytes_eq name name')) [
  | inl e ↦ ground (arith, e)
  | inr e ↦ ground (arith, e, get-set m name v old)
]

pub get-set-other :
    (m : HaMsg) (name other : List ℕ) (v : Value)
    → bytes_eq other name ≡ false
    → cl_get_value (set_value m name v) other ≡ cl_get_value m other
unfolding cl_get_value set_value
get-set-other empty name other v h = refl
get-set-other (field name' v' m) name other v h = elim (Bool-cases (bytes_eq name name')) [
  | inl e ↦
      let miss : bytes_eq other name' ≡ false =
        subst (λ u. bytes_eq other u ≡ false) ((bytes_eq_iff name name').0 e) h in
      ground (arith, e, miss)
  | inr e ↦ ground (arith, e, get-set-other m name other v h)
]

pub get-append :
    (m : HaMsg) (name : List ℕ) (v : Value)
    → cl_get_value m name ≡ none
    → cl_get_value (append_field m name v) name ≡ some v
unfolding cl_get_value
get-append empty name v h = ground (arith, bytes_eq_refl name)
get-append (field name' v' m) name v h = ground (arith, get-append m name v)

pub get-append-other :
    (m : HaMsg) (name other : List ℕ) (v : Value)
    → bytes_eq other name ≡ false
    → cl_get_value (append_field m name v) other ≡ cl_get_value m other
unfolding cl_get_value
get-append-other empty name other v h = ground arith
get-append-other (field name' v' m) name other v h =
    ground (arith, get-append-other m name other v h)

-- A field at the end does not hide one that was there.
pub get-append-there :
    (m : HaMsg) (name other : List ℕ) (v old : Value)
    → cl_get_value m other ≡ some old
    → cl_get_value (append_field m name v) other ≡ some old
unfolding cl_get_value
get-append-there empty name other v old h = ground (arith, h)
get-append-there (field name' v' m) name other v old h = elim (Bool-cases (bytes_eq other name')) [
  | inl e ↦ ground (arith, e, h)
  | inr e ↦
      let found : cl_get_value m other ≡ some old = ground (arith, e, h) in
      ground (arith, e, get-append-there m name other v old found)
]

-- What `cl_msg_modstring` returns where it does not fail.
module _ (stringtofield : ℕ → List ℕ → Option Value) (m : HaMsg) (name s : List ℕ)
    (hn : good_name name ≡ true) (hs : plain s ≡ true) where
  mod-add :
      cl_get_value m name ≡ none
      → cl_msg_modstring stringtofield m name s ≡ done (append_field m name (string s))
  unfolding cl_msg_mod
  mod-add e = ground (arith, e, addraw-string stringtofield m name s hn, plain-sym_to_nl s hs)

  mod-set :
      (old : Value)
      → cl_get_value m name ≡ some old
      → type_of old ≡ ft_string
      → cl_msg_modstring stringtofield m name s ≡ done (set_value m name (string s))
  unfolding cl_msg_mod
  mod-set old e t = ground (arith, e, t)

  -- For a name that is not empty, does not start with `(` or MSG_START and holds no `=` and no NUL,
  -- and a string without NUL and the special symbol: if the message has no field of that name, or
  -- the first one is a string, then `cl_msg_modstring` succeeds; the name's string is then the new
  -- one, and the value of every other name is what it was.
  pub cl_msg_modstring_lem :
      (other : List ℕ)
      → ((v : Value) → cl_get_value m name ≡ some v → type_of v ≡ ft_string)
      → bytes_eq other name ≡ false
      → (m' : HaMsg) × (cl_msg_modstring stringtofield m name s ≡ done m')
        × (cl_get_string m' name ≡ some s)
        × (cl_get_value m' other ≡ cl_get_value m other)
  unfolding cl_get_string
  cl_msg_modstring_lem other ht h = elim (Option-cases (cl_get_value m name)) [
    | inl e ↦ (
      append_field m name (string s),
      mod-add e,
      ap as_string (get-append m name (string s) e),
      get-append-other m name other (string s) h,
    )
    | inr found ↦
        let (old, e) = found in
        (
          set_value m name (string s),
          mod-set old e (ht old e),
          ap as_string (get-set m name (string s) old e),
          get-set-other m name other (string s) h,
        )
  ]

-- `cl_msg_remove` succeeds for the name of a field: the message then has one field less, and the
-- value of every other name is what it was.
pub cl_msg_remove_lem :
    (m : HaMsg) (name other : List ℕ) (v : Value)
    → cl_get_value m name ≡ some v
    → bytes_eq other name ≡ false
    → (m' : HaMsg) × (cl_msg_remove m name ≡ done m')
      × (nfields m ≡ suc (nfields m'))
      × (cl_get_value m' other ≡ cl_get_value m other)
unfolding cl_msg_remove cl_get_value
cl_msg_remove_lem empty name other v e h = ground arith
cl_msg_remove_lem (field name' v' m) name other v e h = elim (Bool-cases (bytes_eq name name')) [
  | inl eq ↦
      let miss : bytes_eq other name' ≡ false =
        subst (λ u. bytes_eq other u ≡ false) ((bytes_eq_iff name name').0 eq) h in
      (m, ground (arith, eq), refl, ground (arith, miss))
  | inr ne ↦
      let found : cl_get_value m name ≡ some v = ground (arith, e, ne) in
      let (m'', removed, count, same) = cl_msg_remove_lem m name other v found h in
      (field name' v' m'', ground (arith, ne, removed), ap suc count, ground (arith, same))
]

-- A field that was added at the end, under a name that no field had, is removed without a trace.
pub cl_msg_remove-append_field :
    (m : HaMsg) (name : List ℕ) (v : Value)
    → cl_get_value m name ≡ none
    → cl_msg_remove (append_field m name v) name ≡ done m
unfolding cl_msg_remove cl_get_value
cl_msg_remove-append_field empty name v h = ground (arith, bytes_eq_refl name)
cl_msg_remove-append_field (field name' v' m) name v h =
    ground (arith, cl_msg_remove-append_field m name v)

nl_to_sym-cons :
    (sym c : ℕ) (cs t : List ℕ)
    → nl_to_sym sym (suc c ∷ cs) ≡ done t
    → (t' : List ℕ) × (nl_to_sym sym cs ≡ done t')
      × (t ≡ (if suc c == newline then sym else suc c) ∷ t')
      × ((suc c == sym && not (suc c == newline)) ≡ false)
unfolding nl_to_sym
nl_to_sym-cons sym c cs t e = go (nl_to_sym sym cs) refl
  where
    go :
        (r : Result (List ℕ))
        → nl_to_sym sym cs ≡ r
        → (t' : List ℕ) × (nl_to_sym sym cs ≡ done t')
          × (t ≡ (if suc c == newline then sym else suc c) ∷ t')
          × ((suc c == sym && not (suc c == newline)) ≡ false)
    go (done t') eq = (t', eq, ground (arith, e, eq), ground (arith, e, eq))
    go refused eq = absurd (ground (arith, e, eq))
    go fault eq = absurd (ground (arith, e, eq))
    go unfinished eq = absurd (ground (arith, e, eq))

back :
    (sym c : ℕ) (t cs : List ℕ)
    → sym ≢ 0
    → sym ≢ newline
    → (suc c == sym && not (suc c == newline)) ≡ false
    → sym_to_nl sym t ≡ cs
    → sym_to_nl sym ((if suc c == newline then sym else suc c) ∷ t) ≡ suc c ∷ cs
unfolding sym_to_nl
back zero c t cs h h' free e = absurd (h refl)
back (suc sym) c t cs h h' free e = elim (Bool-cases (suc c == newline)) [
  | inl eq ↦ ground (arith, eq, e)
  | inr ne ↦ ground (arith, ne, free, e)
]

-- What `convert_nl_sym` made of a string without failing, it makes into the string again, with the
-- other direction, for a symbol that is neither NUL nor a newline.
pub sym_to_nl-nl_to_sym :
    (sym : ℕ) (s t : List ℕ)
    → sym ≢ 0
    → sym ≢ newline
    → nl_to_sym sym s ≡ done t
    → sym_to_nl sym t ≡ s
unfolding sym_to_nl nl_to_sym
sym_to_nl-nl_to_sym sym [] t h h' e = ground (arith, e)
sym_to_nl-nl_to_sym sym (zero ∷ cs) t h h' e = ground (arith, e)
sym_to_nl-nl_to_sym sym (suc c ∷ cs) t h h' e =
    let (t', e', form, free) = nl_to_sym-cons sym c cs t e in
    rw form (back sym c t' cs h h' free (sym_to_nl-nl_to_sym sym cs t' h h' e'))
