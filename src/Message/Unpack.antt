-- ===== src/Message/Unpack.antt =====
-- Packed lists of strings (cl_msg_types.c) read back.
use cluster_glue_import.Prelude.{
  ℕ, zero, suc, ◌+◌, ◌/◌, ◌%◌, ◌^◌, ◌<◌, ◌≤◌, ◌≡◌, refl, ap, ◌∙◌, inl, inr, sym, Bool, true, false,
  ◌&&◌, not, List, [], ◌∷◌, ◌++◌, append-nil, append_assoc, leb, ◌==◌, length, length-append,
  get_or, pos, arith, some, All,
}
use cluster_glue_import.Message.{Result, done, ◌>>=◌}
use cluster_glue_import.Message.Netstring.{decimal, digits, colon, comma, has_nul}
use cluster_glue_import.Message.Scan.{
  c_string, after_colon, unpack_item, unpack_len, unpack_loop, string_list_unpack, sscanf_int,
  scan_digits,
}
use cluster_glue_import.Message.Decimal.{first_digit, last_digit, one_digit, small_or_large}
use cluster_glue_import.Message.Wire.{netstring, wire_strings, length-netstring}
use cluster_glue_import.Message.Peel.{sscanf-decimal, copy-append, drop-append}

-- A string of the list: not empty, without NUL.
abbrev pub good_item : List ℕ → Bool
good_item x = not (length x == 0) && not (has_nul x)

c_string-no_nul : (x : List ℕ) → has_nul x ≡ false → c_string x ≡ x
unfolding has_nul
c_string-no_nul [] h = refl
c_string-no_nul (zero ∷ cs) h = ground arith
c_string-no_nul (suc c ∷ cs) h = ap (λ l. suc c ∷ l) (c_string-no_nul cs h)

skip_digit : (d : ℕ) (s : List ℕ) → d < 10 → after_colon ((b'0' + d) ∷ s) ≡ after_colon s
unfolding after_colon
skip_digit d s h = ground arith

skip_digits : (k n : ℕ) (s : List ℕ) → n < k → after_colon (digits k n ++ s) ≡ after_colon s
skip_digits zero n s h = absurd (omega arith)
skip_digits (suc k) n s h = elim (small_or_large n) [
  | inl lt ↦ rw (one_digit k n lt) (skip_digit n s lt)
  | inr le ↦
      rw (last_digit k n le, append_assoc (digits k (n / 10)) ((b'0' + n % 10) ∷ []) s)
        (skip_digits k (n / 10) ((b'0' + n % 10) ∷ s) (omega arith)
          ∙ skip_digit (n % 10) s (omega arith))
]

after_colon-netstring :
    (x s : List ℕ) → after_colon (netstring x ++ s) ≡ done (some (x ++ (comma ∷ s)))
unfolding after_colon
after_colon-netstring x s =
    rw
      (
        append_assoc (decimal (length x)) (colon ∷ (x ++ comma ∷ [])) s,
        append_assoc x (comma ∷ []) s,
      )
      (skip_digits (suc (length x)) (length x) (colon ∷ (x ++ (comma ∷ s))) (omega arith))

unpack_item-append :
    (x s : List ℕ) (next : List ℕ → List ℕ → Result (List (List ℕ)))
    → has_nul x ≡ false
    → unpack_item (length x) (x ++ (comma ∷ s)) next ≡ next x s
unpack_item-append x s next h =
    rw (copy-append x (comma ∷ s), drop-append x (comma ∷ s), c_string-no_nul x h) refl

-- One string.
unpack_len-item :
    (x s : List ℕ) (list : List (List ℕ)) (next : List ℕ → List ℕ → Result (List (List ℕ)))
    → good_item x ≡ true
    → unpack_len (some (pos (length x))) (netstring x ++ s) list next ≡ next x s
unpack_len-item [] s list next h = ground arith
unpack_len-item (b ∷ bs) s list next h =
    rw (after_colon-netstring (b ∷ bs) s) (unpack_item-append (b ∷ bs) s next (ground arith))

unpack_step :
    (s cs : List ℕ) (d fuel total n : ℕ) (list : List (List ℕ))
    → (b'0' + d) ∷ cs ≡ s
    → total < n + length s
    → unpack_loop (suc fuel) s total n list ≡ (
        sscanf_int s >>= λ len.
        unpack_len len s list (λ item after. unpack_loop fuel after total n (list ++ item ∷ [])))
unfolding unpack_loop
unpack_step [] cs d fuel total n list e h = absurd (omega (arith, ap length e))
unpack_step (b ∷ bs) cs d fuel total n list e h =
    let first : b'0' + d ≡ b = ap (λ l. get_or l 0 0) e in
    let not_nul : (b == 0) ≡ false = ground arith in
    let inside : leb (n + length (b ∷ bs)) total ≡ false = ground arith in rw (not_nul, inside) refl

sscanf-netstring :
    (x s : List ℕ)
    → length x < 2 ^ 31
    → sscanf_int (netstring x ++ s) ≡ done (some (pos (length x)))
unfolding scan_digits
sscanf-netstring x s h =
    rw (append_assoc (decimal (length x)) (colon ∷ (x ++ comma ∷ [])) s)
      (sscanf-decimal (length x) (colon ∷ ((x ++ comma ∷ []) ++ s)) refl h)

count-wire_strings : (l : List (List ℕ)) → length l ≤ length (wire_strings l)
unfolding wire_strings
count-wire_strings [] = omega arith
count-wire_strings (x ∷ l) =
    omega (
      arith,
      count-wire_strings l,
      length-append (netstring x) (wire_strings l),
      length-netstring x,
    )

unpack_loop-wire :
    (l : List (List ℕ)) (fuel total n c : ℕ) (rest : List ℕ) (list : List (List ℕ))
    → All (λ x. good_item x ≡ true) l
    → length l < fuel
    → n + length (c ∷ rest) ≡ total
    → length (wire_strings l) < 2 ^ 31
    → unpack_loop fuel (wire_strings l ++ (c ∷ rest)) total n list ≡ done (list ++ l)
unfolding unpack_loop wire_strings
unpack_loop-wire [] zero total n c rest list h lt e small = absurd (omega arith)
unpack_loop-wire [] (suc fuel) total n c rest list h lt e small =
    let ended : leb (n + length (c ∷ rest)) total ≡ true = ground arith in
    ground (arith, append-nil list)
unpack_loop-wire (x ∷ l) zero total n c rest list h lt e small = absurd (omega arith)
unpack_loop-wire (x ∷ l) (suc fuel) total n c rest list (hx, hl) lt e small =
    let s = wire_strings l ++ (c ∷ rest) in
    let len : length (wire_strings (x ∷ l)) ≡ length (netstring x) + length (wire_strings l) =
      length-append (netstring x) (wire_strings l) in
    let next : List ℕ → List ℕ → Result (List (List ℕ)) =
      λ item after. unpack_loop fuel after total n (list ++ item ∷ []) in
    let (d, ds, _, eq) = first_digit (suc (length x)) (length x) (omega arith) in
    let starts : (b'0' + d) ∷ (ds ++ (colon ∷ (x ++ comma ∷ [])) ++ s) ≡ netstring x ++ s =
      ap (λ l. l ++ (colon ∷ (x ++ comma ∷ [])) ++ s) (sym eq) in
    rw (append_assoc (netstring x) (wire_strings l) (c ∷ rest)) (
      unpack_step (netstring x ++ s) _ d fuel total n list starts (
        omega (
          arith,
          length-append (netstring x) s,
          length-append (wire_strings l) (c ∷ rest),
          length-netstring x,
        ))
      ∙ rw (sscanf-netstring x s (omega (arith, length-netstring x)))
          (unpack_len-item x s list next hx)
      ∙ unpack_loop-wire l fuel total n c rest (list ++ x ∷ []) hl (omega arith) e (omega arith)
      ∙ ap done (append_assoc list (x ∷ []) l))

-- A packed list that is read back where anything follows it.
pub string_list_unpack-wire :
    (l : List (List ℕ)) (c : ℕ) (rest : List ℕ)
    → All (λ x. good_item x ≡ true) l
    → length (wire_strings l) < 2 ^ 31
    → string_list_unpack (wire_strings l ++ (c ∷ rest)) (length (wire_strings l)) ≡ done l
string_list_unpack-wire l c rest h small =
    let total = length (wire_strings l ++ (c ∷ rest)) in
    unpack_loop-wire l (suc total) total (length (wire_strings l)) c rest [] h
      (omega (arith, count-wire_strings l, length-append (wire_strings l) (c ∷ rest)))
      (sym (length-append _ _)) small
