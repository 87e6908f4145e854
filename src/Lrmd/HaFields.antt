-- ===== src/Lrmd/HaFields.antt =====
-- The messages of lib/clplumbing/cl_msg.c keep the laws that the daemon relies on.
use cluster_glue_import.Prelude.{
  ℕ, ◌≡◌, refl, sym, subst, ap, ◌∙◌, Bool, true, false, List, Option, some, none, String, ℤ, codes,
  bytes_eq_iff, is_some, if◌then◌else◌, inl, inr, Bool-cases, Option-cases, arith,
}
use cluster_glue_import.Message.{
  HaMsg, Value, string, binary, structure, strings, compressed, uncompressed, type_of, ft_string,
  cl_get_value, cl_get_string, as_string, sym_to_nl, special_sym, cl_msg_remove,
}
use cluster_glue_import.Message.Ints.{int_text, plain-int_text, atoi-int_text, atoi}
use cluster_glue_import.Message.Sendable.{plain-sym_to_nl}
use cluster_glue_import.Message.Fields.{get-append, get-append-other, get-append-there}
use cluster_glue_import.Message.Scan.{in_int}
use cluster_glue_import.Lrmd.Messages.{Messages, name_eq, is_written, no_int}
use cluster_glue_import.Lrmd.Named.{found-string, append-named, written_code, bytes_eq-codes}
use cluster_glue_import.Lrmd.HaMessages.{
  Named, after, added, adds, changes, changes_plain, apart, pack-some, outcome, without,
  after-IsLeft, number, number_in, text_of, int_of, write_int, append_int, write_text, append_text,
}

same_name : (n k : String) → name_eq n k ≡ true → codes n ≡ codes k
same_name n k h = (bytes_eq_iff (codes n) (codes k)).0 (bytes_eq-codes n k ∙ h)

is_string : (v : Value) → type_of v ≡ ft_string → (s : List ℕ) × (v ≡ string s)
is_string (string s) h = (s, refl)
is_string (binary s) h = absurd (omega arith)
is_string (structure c) h = absurd (omega arith)
is_string (strings l) h = absurd (omega arith)
is_string (compressed s) h = absurd (omega arith)
is_string (uncompressed c) h = absurd (omega arith)

fits : (n k : String) (v : ℤ) → no_int n k v ≡ false → name_eq n k ≡ true → in_int v ≡ true
fits n k v h e = ground (arith, h, e)

module _ (stringtofield : ℕ → List ℕ → Option Value) (overflowed : List ℕ → ℤ) where
  abbrev reads : HaMsg → String → Option ℤ
  reads m k = number_in stringtofield overflowed (cl_get_string m (codes k))

  abbrev seen : Option Value → Option ℤ
  seen o = number_in stringtofield overflowed (as_string o)

  reads-seen : (m : HaMsg) (k : String) → reads m k ≡ seen (cl_get_value m (codes k))
  unfolding cl_get_string
  reads-seen m k = refl

  number-text :
      (v : ℤ) → in_int v ≡ true → number_in stringtofield overflowed (some (int_text v)) ≡ some v
  number-text v h = rw (atoi-int_text v h) refl

  -- What is read after a number was written.
  read_back :
      (m x : HaMsg) (n k : String) (v : ℤ)
      → cl_get_string x (codes n) ≡ some (int_text v)
      → (name_eq n k ≡ false → cl_get_value x (codes k) ≡ cl_get_value m (codes k))
      → no_int n k v ≡ false
      → reads x k ≡ (if name_eq n k then some v else reads m k)
  read_back m x n k v w other f = elim (Bool-cases (name_eq n k)) [
    | inl e ↦ rw e (
        subst (λ c. number_in stringtofield overflowed (cl_get_string x c) ≡ some v)
          (same_name n k e)
          (ap (number_in stringtofield overflowed) w ∙ number-text v (fits n k v f e)))
    | inr e ↦ rw e (reads-seen x k ∙ ap seen (other e) ∙ sym (reads-seen m k))
  ]

  same_result : {x y : Named} {o : Option Named} → o ≡ some x → o ≡ some y → x ≡ y
  same_result p q = cc

  pub write_int-some :
      (m : Named) (n : String) (v : ℤ)
      → is_written n ≡ true
      → (m' : Named) × (write_int stringtofield overflowed true m n v ≡ some m')
  unfolding write_int
  write_int-some m n v h =
      let w = changes_plain stringtofield m n (int_text v) h (plain-int_text v) in
      (w.named, w.packs)

  pub int_of-write_int :
      (a : Bool) (m m' : Named) (n k : String) (v : ℤ)
      → write_int stringtofield overflowed a m n v ≡ some m'
      → is_written n ≡ true
      → no_int n k v ≡ false
      → int_of stringtofield overflowed m' k
        ≡ (if name_eq n k then some v else int_of stringtofield overflowed m k)
  unfolding write_int int_of
  int_of-write_int false m m' n k v e h f = absurd cc
  int_of-write_int true m m' n k v e h f =
      let w = changes_plain stringtofield m n (int_text v) h (plain-int_text v) in
      subst (λ (x : Named). reads x.msg k ≡ (if name_eq n k then some v else reads m.msg k))
        (same_result w.packs e) (read_back m.msg w.named.msg n k v w.written (w.other k) f)

  -- A field that is added behind another one of its name.
  hidden :
      (m : Named) (n k : String) (s : List ℕ) (old : Value)
      → cl_get_value m.msg (codes n) ≡ some old
      → cl_get_value (added m n s) (codes k) ≡ cl_get_value m.msg (codes k)
  hidden m n k s old e = elim (Bool-cases (name_eq n k)) [
    | inl q ↦
        subst (λ c. cl_get_value (added m n s) c ≡ cl_get_value m.msg c) (same_name n k q)
          (get-append-there m.msg (codes n) (codes n) (string (sym_to_nl special_sym s)) old e
            ∙ sym e)
    | inr q ↦
        get-append-other m.msg (codes n) (codes k) (string (sym_to_nl special_sym s)) (apart n k q)
  ]

  shown : Option ℤ → Bool → ℤ → Option ℤ
  shown o b v = if is_some o then o else if b then some v else none

  shown-some : (o : Option ℤ) (b : Bool) (v x : ℤ) → o ≡ some x → o ≡ shown o b v
  unfolding shown
  shown-some none b v x e = absurd cc
  shown-some (some y) b v x e = refl

  shown-other : (o : Option ℤ) (v : ℤ) → o ≡ shown o false v
  unfolding shown
  shown-other none v = refl
  shown-other (some y) v = refl

  seen_old :
      (m : Named) (n k : String) (old : Value)
      → is_written n ≡ true
      → cl_get_value m.msg (codes n) ≡ some old
      → name_eq n k ≡ true
      → (x : ℤ) × (reads m.msg k ≡ some x)
  seen_old m n k old h e q =
      let (s, v) =
        is_string old (found-string m.msg (codes n) old m.strings (written_code n h) e) in
      (
        number stringtofield overflowed (atoi s) s,
        subst
            (λ c.
              number_in stringtofield overflowed (cl_get_string m.msg c)
              ≡ some (number stringtofield overflowed (atoi s) s))
            (same_name n k q) (reads-seen m.msg n ∙ ap seen (e ∙ ap some v)),
      )

  added_text :
      (m : Named) (n : String) (v : ℤ)
      → cl_get_value m.msg (codes n) ≡ none
      → cl_get_string (added m n (int_text v)) (codes n) ≡ some (int_text v)
  unfolding cl_get_string
  added_text m n v e =
      ap as_string (get-append m.msg (codes n) (string (sym_to_nl special_sym (int_text v))) e)
      ∙ ap some (plain-sym_to_nl (int_text v) (plain-int_text v))

  read_added :
      (m : Named) (n k : String) (v : ℤ)
      → is_written n ≡ true
      → no_int n k v ≡ false
      → reads (added m n (int_text v)) k ≡ shown (reads m.msg k) (name_eq n k) v
  unfolding shown
  read_added m n k v h f = elim (Option-cases (cl_get_value m.msg (codes n))) [
    | inr (old, e) ↦
        let kept : reads (added m n (int_text v)) k ≡ reads m.msg k =
          reads-seen (added m n (int_text v)) k
          ∙ ap seen (hidden m n k (int_text v) old e)
          ∙ sym (reads-seen m.msg k) in
        kept ∙ elim (Bool-cases (name_eq n k)) [
          | inl q ↦
              let (x, there) = seen_old m n k old h e q in
              shown-some (reads m.msg k) (name_eq n k) v x there
          | inr q ↦ rw q (shown-other (reads m.msg k) v)
        ]
    | inl e ↦
        let back =
          read_back m.msg (added m n (int_text v)) n k v (added_text m n v e)
            (λ q.
              get-append-other m.msg (codes n) (codes k)
                (string (sym_to_nl special_sym (int_text v))) (apart n k q))
            f in
        back ∙ elim (Bool-cases (name_eq n k)) [
          | inl q ↦
              let missing : reads m.msg k ≡ none =
                subst (λ c. number_in stringtofield overflowed (cl_get_string m.msg c) ≡ none)
                  (same_name n k q) (reads-seen m.msg n ∙ ap seen e) in
              rw (q, missing) refl
          | inr q ↦ rw q (shown-other (reads m.msg k) v)
        ]
  ]

  pub append_int-some :
      (m : Named) (n : String) (v : ℤ)
      → is_written n ≡ true
      → (m' : Named) × (append_int stringtofield overflowed true m n v ≡ some m')
  unfolding append_int
  append_int-some m n v h =
      let (x, same, p) =
        pack-some (added m n (int_text v))
          (append-named m.msg (codes n) (sym_to_nl special_sym (int_text v)) m.strings) in
      (x, ap outcome (adds stringtofield m n (int_text v) h) ∙ p)

  pub int_of-append_int :
      (a : Bool) (m m' : Named) (n k : String) (v : ℤ)
      → append_int stringtofield overflowed a m n v ≡ some m'
      → is_written n ≡ true
      → no_int n k v ≡ false
      → int_of stringtofield overflowed m' k ≡ (
          if is_some (int_of stringtofield overflowed m k)
          then int_of stringtofield overflowed m k
          else if name_eq n k
          then some v
          else none)
  unfolding append_int int_of shown
  int_of-append_int false m m' n k v e h f = absurd cc
  int_of-append_int true m m' n k v e h f =
      let (x, same, p) =
        pack-some (added m n (int_text v))
          (append-named m.msg (codes n) (sym_to_nl special_sym (int_text v)) m.strings) in
      subst (λ (y : Named). reads y.msg k ≡ shown (reads m.msg k) (name_eq n k) v)
        (same_result (ap outcome (adds stringtofield m n (int_text v) h) ∙ p) e)
        (rw same (read_added m n k v h f))

  pub int_of-without :
      (m : Named) (n k : String)
      → name_eq n k ≡ false
      → int_of stringtofield overflowed (without m n) k ≡ int_of stringtofield overflowed m k
  unfolding int_of without
  int_of-without m n k h =
      let x = after (cl_msg_remove m.msg (codes n)) m.msg in
      reads-seen x k
      ∙ ap seen ((after-IsLeft m.msg (codes n) (codes k)).1 (apart n k h))
      ∙ sym (reads-seen m.msg k)

  -- The messages of cl_msg.c, as the daemon uses them.
  abbrev pub ha_fields : Messages
  ha_fields = record {
    Msg = Named;
    value = text_of stringtofield overflowed;
    value_int = int_of stringtofield overflowed;
    mod_int = write_int stringtofield overflowed;
    add_int = append_int stringtofield overflowed;
    remove = without;
    mod_int-some = write_int-some;
    value_int-mod_int = λ {a} {m} {m'} n k {v} e. int_of-write_int a m m' n k v e;
    add_int-some = append_int-some;
    value_int-add_int = λ {a} {m} {m'} n k {v} e. int_of-append_int a m m' n k v e;
    value_int-remove = int_of-without;
  }

  -- `ha_msg_mod`, and what `on_msg_perform_op` relies on.
  pub write_text-some :
      (m : Named) (n s : String)
      → is_written n ≡ true
      → (m' : Named) × (write_text stringtofield overflowed true m n s ≡ some m')
  unfolding write_text
  write_text-some m n s h = let (t, w) = changes stringtofield m n (codes s) h in (w.named, w.packs)

  pub int_of-write_text :
      (a : Bool) (m m' : Named) (n k s : String)
      → write_text stringtofield overflowed a m n s ≡ some m'
      → is_written n ≡ true
      → name_eq n k ≡ false
      → int_of stringtofield overflowed m' k ≡ int_of stringtofield overflowed m k
  unfolding write_text int_of
  int_of-write_text false m m' n k s e h q = absurd cc
  int_of-write_text true m m' n k s e h q =
      let (t, w) = changes stringtofield m n (codes s) h in
      subst (λ (x : Named). reads x.msg k ≡ reads m.msg k) (same_result w.packs e)
        (reads-seen w.named.msg k ∙ ap seen (w.other k q) ∙ sym (reads-seen m.msg k))

  -- `ha_msg_add`, and what `on_ra_proc_finished` relies on.
  pub int_of-append_text :
      (a : Bool) (m m' : Named) (n k : String) (s : List ℕ)
      → append_text stringtofield overflowed a m n s ≡ some m'
      → is_written n ≡ true
      → name_eq n k ≡ false
      → int_of stringtofield overflowed m' k ≡ int_of stringtofield overflowed m k
  unfolding append_text int_of
  int_of-append_text false m m' n k s e h q = absurd cc
  int_of-append_text true m m' n k s e h q =
      let (x, same, p) =
        pack-some (added m n s)
          (append-named m.msg (codes n) (sym_to_nl special_sym s) m.strings) in
      let other =
        get-append-other m.msg (codes n) (codes k) (string (sym_to_nl special_sym s))
          (apart n k q) in
      subst (λ (y : Named). reads y.msg k ≡ reads m.msg k)
        (same_result (ap outcome (adds stringtofield m n s h) ∙ p) e)
        (rw same (reads-seen (added m n s) k ∙ ap seen other ∙ sym (reads-seen m.msg k)))
