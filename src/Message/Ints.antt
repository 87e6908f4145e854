-- ===== src/Message/Ints.antt =====
-- Numbers in messages (cl_msg.c). `snprintf` with MAX_INT_LEN bytes of room writes every int whole.
use cluster_glue_import.Prelude.{
  ℕ, zero, suc, ◌+◌, ◌/◌, ◌%◌, ◌^◌, ◌<◌, ◌≡◌, refl, ◌∙◌, sym, subst, inl, inr, true, false, List,
  [], ◌∷◌, ◌++◌, Option, some, none, bytes_eq, ℤ, pos, negsuc, arith,
}
use cluster_glue_import.Message.{
  Result, done, refused, ◌>>=◌, HaMsg, Value, string, type_of, ft_string, ha_msg_addraw,
  cl_msg_modstring, cl_get_value, cl_get_string,
}
use cluster_glue_import.Message.Netstring.{decimal, digits}
use cluster_glue_import.Message.Scan.{in_int, scan_digits, sscanf_int}
use cluster_glue_import.Message.Decimal.{
  scan_decimal, first_digit, small_or_large, one_digit, last_digit,
}
use cluster_glue_import.Message.Peel.{sscanf-decimal}
use cluster_glue_import.Message.Sendable.{good_name, plain}
use cluster_glue_import.Message.Fields.{cl_msg_modstring_lem}

-- `%d`.
abbrev pub int_text : ℤ → List ℕ
int_text (pos n) = decimal n
int_text (negsuc n) = b'-' ∷ decimal (suc n)

-- `atoi`, up to the terminator.
abbrev pub atoi : List ℕ → Result ℤ
atoi s = do n ← sscanf_int (s ++ 0 ∷ []); elim n [ none ↦ done (pos 0) | some k ↦ done k ]

module _ (stringtofield : ℕ → List ℕ → Option Value) where
  abbrev pub ha_msg_add_int : HaMsg → List ℕ → ℤ → Result HaMsg
  ha_msg_add_int m name k = ha_msg_addraw stringtofield m name (string (int_text k))

  abbrev pub ha_msg_mod_int : HaMsg → List ℕ → ℤ → Result HaMsg
  ha_msg_mod_int m name k = cl_msg_modstring stringtofield m name (int_text k)

unfoldable pub ha_msg_value_int : HaMsg → List ℕ → Result ℤ
ha_msg_value_int m name = elim (cl_get_string m name) [ none ↦ refused | some s ↦ atoi s ]

plain-append : (s t : List ℕ) → plain s ≡ true → plain t ≡ true → plain (s ++ t) ≡ true
unfolding plain
plain-append [] t h h' = h'
plain-append (c ∷ cs) t h h' = ground (arith, plain-append cs t)

plain-digit : (d : ℕ) → d < 10 → plain ((b'0' + d) ∷ []) ≡ true
unfolding plain
plain-digit d h = ground arith

plain-digits : (k n : ℕ) → n < k → plain (digits k n) ≡ true
plain-digits zero n h = absurd (omega arith)
plain-digits (suc k) n h = elim (small_or_large n) [
  | inl lt ↦ rw (one_digit k n lt) (plain-digit n lt)
  | inr le ↦ rw (last_digit k n le) (
      plain-append (digits k (n / 10)) ((b'0' + n % 10) ∷ [])
        (plain-digits k (n / 10) (omega arith)) (plain-digit (n % 10) (omega arith)))
]

pub plain-int_text : (k : ℤ) → plain (int_text k) ≡ true
unfolding plain
plain-int_text (pos n) = plain-digits (suc n) n (omega arith)
plain-int_text (negsuc n) = ground (arith, plain-digits (suc (suc n)) (suc n) (omega arith))

minus_digits :
    (d n : ℕ) (ds : List ℕ)
    → d < 10
    → scan_digits ((b'0' + d) ∷ ds) 0 ≡ done (suc n)
    → n < 2 ^ 31
    → sscanf_int (b'-' ∷ (b'0' + d) ∷ ds) ≡ done (some (negsuc n))
unfolding sscanf_int
minus_digits d n ds h e h' = ground arith

scanned : (n : ℕ) → scan_digits (decimal n ++ 0 ∷ []) 0 ≡ done n
unfolding scan_digits
scanned n = scan_decimal (suc n) n (0 ∷ []) (omega arith)

pub atoi-int_text : (k : ℤ) → in_int k ≡ true → atoi (int_text k) ≡ done k
unfolding scan_digits
atoi-int_text (pos n) h = rw (sscanf-decimal n (0 ∷ []) refl (ground arith)) refl
atoi-int_text (negsuc n) h =
    let (d, ds, lt, eq) = first_digit (suc (suc n)) (suc n) (omega arith) in
    let read = subst (λ l. scan_digits (l ++ 0 ∷ []) 0 ≡ done (suc n)) eq (scanned (suc n)) in
    let whole = minus_digits d n (ds ++ 0 ∷ []) lt read (ground arith) in
    subst (λ l. atoi (b'-' ∷ l) ≡ done (negsuc n)) (sym eq) (rw whole refl)

another : (name : List ℕ) → (other : List ℕ) × (bytes_eq other name ≡ false)
unfolding bytes_eq
another [] = (0 ∷ [], refl)
another (b ∷ name) = ([], refl)

value_int-found :
    (m : HaMsg) (name s : List ℕ) → cl_get_string m name ≡ some s → ha_msg_value_int m name ≡ atoi s
unfolding ha_msg_value_int
value_int-found m name s e = rw (e, ha_msg_value_int) refl

-- For a name that is not empty, does not start with `(` or MSG_START and holds no `=` and no NUL: if
-- the message has no field of that name, or the first one is a string, then `ha_msg_mod_int`
-- succeeds for every int, also below zero, and `ha_msg_value_int` reads this int.
pub value_int-mod_int :
    (stringtofield : ℕ → List ℕ → Option Value) (m : HaMsg) (name : List ℕ) (k : ℤ)
    → good_name name ≡ true
    → in_int k ≡ true
    → ((v : Value) → cl_get_value m name ≡ some v → type_of v ≡ ft_string)
    → (m' : HaMsg) × (ha_msg_mod_int stringtofield m name k ≡ done m')
      × (ha_msg_value_int m' name ≡ done k)
value_int-mod_int stringtofield m name k hn hk ht =
    let (other, differs) = another name in
    let (m', e, found, _) =
      cl_msg_modstring_lem stringtofield m name (int_text k) hn (plain-int_text k) other ht
        differs in
    (m', e, value_int-found m' name (int_text k) found ∙ atoi-int_text k hk)
