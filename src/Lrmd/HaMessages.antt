-- ===== src/Lrmd/HaMessages.antt =====
-- The messages of lib/clplumbing/cl_msg.c as the daemon uses them: the fields that it writes are
-- strings. What `atoi` makes of a number that is no int, which C leaves undefined, is the parameter
-- `overflowed`.
use cluster_glue_import.Prelude.{
  ℕ, ◌≡◌, refl, sym, subst, ap, ◌∙◌, Bool, true, false, List, [], Option, some, none, String, ℤ,
  codes, bytes_eq, bytes_eq_iff, inl, inr, ◌⊎◌, Bool-cases, Option-cases, arith,
}
use cluster_glue_import.Message.{
  Result, done, refused, fault, unfinished, HaMsg, Value, string, append_field, cl_get_value,
  cl_get_string, as_string, set_value, cl_msg_remove, cl_msg_mod, cl_msg_modstring, sym_to_nl,
  special_sym,
}
use cluster_glue_import.Message.Ints.{atoi, ha_msg_value_int, ha_msg_mod_int, ha_msg_add_int}
use cluster_glue_import.Message.Access.{ha_msg_add}
use cluster_glue_import.Message.Ends.{Ends}
use cluster_glue_import.Message.Sendable.{plain, addraw-string, plain-sym_to_nl}
use cluster_glue_import.Message.Fields.{get-set, get-set-other, get-append, get-append-other}
use cluster_glue_import.Lrmd.Messages.{name_eq, is_written}
use cluster_glue_import.Lrmd.Named.{
  strings_named, found-string, set-named, append-named, remove-IsLeft, IsLeft, written_code,
  written-good, bytes_eq-codes,
}

pub record Named : Type 0 where
  pub msg : HaMsg
  pub strings : strings_named msg ≡ true

abbrev pub packed :
    (m : HaMsg) → (strings_named m ≡ true) ⊎ (strings_named m ≡ false) → Option Named
packed m (inl e) = some (record { msg = m; strings = e })
packed m (inr e) = none

-- The message with the fact about its fields. `pack-some` gives it for whatever the functions below
-- make of a message; under a name that the daemon does not write they may fail.
unfoldable pub pack : HaMsg → Option Named
pack m = packed m (Bool-cases (strings_named m))

pub pack-some : (m : HaMsg) → strings_named m ≡ true → (x : Named) × (x.msg ≡ m) × (pack m ≡ some x)
unfolding pack
pack-some m h = go (Bool-cases (strings_named m))
  where
    go :
        (c : (strings_named m ≡ true) ⊎ (strings_named m ≡ false))
        → (x : Named) × (x.msg ≡ m) × (packed m c ≡ some x)
    go (inl e) = (record { msg = m; strings = e }, refl, refl)
    go (inr e) = absurd (ground (arith, h, e))

abbrev pub outcome : Result HaMsg → Option Named
outcome (done m) = pack m
outcome refused = none
outcome fault = none
outcome unfinished = none

abbrev pub after : Result HaMsg → HaMsg → HaMsg
after (done m') m = m'
after refused m = m
after fault m = m
after unfinished m = m

-- What is left after a removal, or the message if there is no such field.
pub after-IsLeft :
    (m : HaMsg) (name other : List ℕ) → IsLeft m name other (after (cl_msg_remove m name) m)
after-IsLeft m name other = go (cl_msg_remove m name) (remove-IsLeft m name other)
  where
    go : (r : Result HaMsg) → Ends (IsLeft m name other) r → IsLeft m name other (after r m)
    go (done m') l = l
    go refused l = ((λ h. h), λ h. refl)
    go fault l = ((λ h. h), λ h. refl)
    go unfinished l = absurd cc

unfoldable pub without : Named → String → Named
without m n = record {
  msg = after (cl_msg_remove m.msg (codes n)) m.msg;
  strings = (after-IsLeft m.msg (codes n) []).0 m.strings;
}

pub apart : (n k : String) → name_eq n k ≡ false → bytes_eq (codes k) (codes n) ≡ false
apart n k h = elim (Bool-cases (bytes_eq (codes k) (codes n))) [
  | inl e ↦
      let same =
        (bytes_eq_iff (codes n) (codes k)).1 (sym ((bytes_eq_iff (codes k) (codes n)).0 e)) in
      ground (arith, h, same, bytes_eq-codes n k)
  | inr e ↦ e
]

-- A string was written under the name, and no other name got another value.
pub record Wrote (m : HaMsg) (n : String) (s : List ℕ) (r : Result HaMsg) : Type 0 where
  pub named : Named
  pub packs : outcome r ≡ some named
  pub written : cl_get_string named.msg (codes n) ≡ some s
  pub other :
      (k : String)
      → name_eq n k ≡ false
      → cl_get_value named.msg (codes k) ≡ cl_get_value m (codes k)

-- The message with a string behind its fields.
abbrev pub added : Named → String → List ℕ → HaMsg
added m n s = append_field m.msg (codes n) (string (sym_to_nl special_sym s))

module _ (stringtofield : ℕ → List ℕ → Option Value) (m : Named) (n : String) (s : List ℕ)
    (hn : is_written n ≡ true) where
  pub adds : ha_msg_add stringtofield m.msg (codes n) s ≡ done (added m n s)
  adds = addraw-string stringtofield m.msg (codes n) s (written-good n hn)

  -- Where there is no such field yet.
  pub new_field :
      cl_get_value m.msg (codes n) ≡ none
      → Wrote m.msg n (sym_to_nl special_sym s) (done (added m n s))
  unfolding cl_get_string
  new_field e =
      let (x, same, p) =
        pack-some (added m n s)
          (append-named m.msg (codes n) (sym_to_nl special_sym s) m.strings) in
      record {
        named = x;
        packs = p;
        written =
            rw same
              (ap as_string (get-append m.msg (codes n) (string (sym_to_nl special_sym s)) e));
        other = λ k h. rw same (
            get-append-other m.msg (codes n) (codes k) (string (sym_to_nl special_sym s))
              (apart n k h));
      }

  -- Where there is one.
  changed_field :
      (old : Value)
      → cl_get_value m.msg (codes n) ≡ some old
      → Wrote m.msg n s (cl_msg_modstring stringtofield m.msg (codes n) s)
  unfolding cl_get_string cl_msg_mod
  changed_field old e =
      let changed = set_value m.msg (codes n) (string s) in
      let t = found-string m.msg (codes n) old m.strings (written_code n hn) e in
      let (x, same, p) = pack-some changed (set-named m.msg (codes n) s m.strings) in
      let mods : cl_msg_modstring stringtofield m.msg (codes n) s ≡ done changed =
        ground (arith, e, t) in
      record {
        named = x;
        packs = ap outcome mods ∙ p;
        written = rw same (ap as_string (get-set m.msg (codes n) (string s) old e));
        other = λ k h. rw same (get-set-other m.msg (codes n) (codes k) (string s) (apart n k h));
      }

  pub changes_plain :
      plain s ≡ true → Wrote m.msg n s (cl_msg_modstring stringtofield m.msg (codes n) s)
  unfolding cl_msg_mod
  changes_plain q = elim (Option-cases (cl_get_value m.msg (codes n))) [
    | inl e ↦
        let mods : cl_msg_modstring stringtofield m.msg (codes n) s ≡ done (added m n s) =
          ground (arith, e, adds) in
        subst (λ t. Wrote m.msg n t (cl_msg_modstring stringtofield m.msg (codes n) s))
          (plain-sym_to_nl s q)
          (subst (Wrote m.msg n (sym_to_nl special_sym s)) (sym mods) (new_field e))
    | inr (old, e) ↦ changed_field old e
  ]

  pub changes : (t : List ℕ) × Wrote m.msg n t (cl_msg_modstring stringtofield m.msg (codes n) s)
  unfolding cl_msg_mod
  changes = elim (Option-cases (cl_get_value m.msg (codes n))) [
    | inl e ↦ (
      sym_to_nl special_sym s,
      subst (Wrote m.msg n (sym_to_nl special_sym s)) (sym (ground (arith, e, adds))) (new_field e),
    )
    | inr (old, e) ↦ (s, changed_field old e)
  ]

module _ (stringtofield : ℕ → List ℕ → Option Value) (overflowed : List ℕ → ℤ) where
  abbrev pub number : Result ℤ → List ℕ → ℤ
  number (done k) s = k
  number refused s = overflowed s
  number fault s = overflowed s
  number unfinished s = overflowed s

  abbrev pub number_in : Option (List ℕ) → Option ℤ
  number_in none = none
  number_in (some s) = some (number (atoi s) s)

  unfoldable pub text_of : Named → String → Option (List ℕ)
  text_of m n = cl_get_string m.msg (codes n)

  unfoldable pub int_of : Named → String → Option ℤ
  int_of m n = number_in (cl_get_string m.msg (codes n))

  -- What `ha_msg_value_int` reads is what the daemon reads.
  pub int_of-value_int :
      (m : Named) (n : String) (k : ℤ)
      → ha_msg_value_int m.msg (codes n) ≡ done k
      → int_of m n ≡ some k
  unfolding int_of ha_msg_value_int
  int_of-value_int m n k e = elim (Option-cases (cl_get_string m.msg (codes n))) [
    | inl f ↦ absurd (ground (arith, e, f))
    | inr (s, f) ↦ let read : atoi s ≡ done k = ground (arith, e, f) in rw (f, read) refl
  ]

  unfoldable pub write_int : Bool → Named → String → ℤ → Option Named
  write_int false m n v = none
  write_int true m n v = outcome (ha_msg_mod_int stringtofield m.msg (codes n) v)

  unfoldable pub append_int : Bool → Named → String → ℤ → Option Named
  append_int false m n v = none
  append_int true m n v = outcome (ha_msg_add_int stringtofield m.msg (codes n) v)

  unfoldable pub write_text : Bool → Named → String → String → Option Named
  write_text false m n s = none
  write_text true m n s = outcome (cl_msg_modstring stringtofield m.msg (codes n) (codes s))

  unfoldable pub append_text : Bool → Named → String → List ℕ → Option Named
  append_text false m n s = none
  append_text true m n s = outcome (ha_msg_add stringtofield m.msg (codes n) s)
