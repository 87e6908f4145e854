-- ===== src/Message/Peel.antt =====
-- The decoder of cl_netstring.c on single pieces of a text that the encoder wrote.
use cluster_glue_import.Prelude.{
  ℕ, zero, suc, ◌+◌, ◌^◌, ◌<◌, ◌≡◌, refl, ap, ◌∙◌, sym, subst, Bool, true, false, ◌&&◌, ◌||◌, not,
  List, [], ◌∷◌, ◌++◌, append_assoc, ◌==◌, length, length-append, take, drop, ℤ, pos, arith, some,
}
use cluster_glue_import.Message.{done}
use cluster_glue_import.Message.Netstring.{decimal, colon, comma}
use cluster_glue_import.Message.Parse.{
  number_of, piece_of, span_of, parse_loop, cl_parse_int, peel_text, skip_to_colon, peel_number,
  peel_netstring, name_span,
}
use cluster_glue_import.Message.Scan.{copy, sscanf_int, scan_digits}
use cluster_glue_import.Message.Decimal.{length-decimal, parse_digits, scan_decimal, first_digit}
use cluster_glue_import.Message.Wire.{netstring}

pub drop-append {ℓ} : {A : Type ℓ} (xs ys : List A) → drop (length xs) (xs ++ ys) ≡ ys
drop-append [] ys = refl
drop-append (x ∷ xs) ys = drop-append xs ys

pub take-append {ℓ} : {A : Type ℓ} (xs ys : List A) → take (length xs) (xs ++ ys) ≡ xs
take-append [] ys = refl
take-append (x ∷ xs) ys = ap (λ l. x ∷ l) (take-append xs ys)

pub copy-append : (xs ys : List ℕ) → copy (length xs) (xs ++ ys) ≡ done xs
copy-append xs ys = ground (arith, take-append xs ys, length-append xs ys)

module _ (signed : Bool) where
  stop-colon :
      (s : List ℕ) (n offset : ℕ) (len : ℤ)
      → parse_loop signed (colon ∷ s) (suc n) len offset
        ≡ done (number_of len offset (colon ∷ s) (suc n))
  unfolding parse_loop
  stop-colon s n offset len = ground arith

  -- A number and a colon.
  parse-decimal :
      (k : ℕ) (s : List ℕ) (n : ℕ)
      → k < 2 ^ 31
      → cl_parse_int signed (decimal k ++ (colon ∷ s)) (length (decimal k) + suc n)
        ≡ done (number_of (pos k) (length (decimal k)) (colon ∷ s) (suc n))
  parse-decimal k s n h =
      parse_digits signed (suc k) k (colon ∷ s) (suc n) (omega arith) h
      ∙ stop-colon s n (length (decimal k)) (pos k)

  peel_text-append :
      (x tail : List ℕ) (e : ℕ)
      → peel_text (x ++ (comma ∷ tail)) (length x + 1 + e) (length x)
        ≡ done (piece_of (length x) (x ++ (comma ∷ tail)) tail e)
  unfolding peel_text
  peel_text-append x tail e = ground (arith, drop-append x (comma ∷ tail))

  peel_number-colon :
      (len offset : ℕ) (s : List ℕ) (n : ℕ)
      → 0 < offset
      → peel_number (number_of (pos len) offset (colon ∷ s) (suc n)) ≡ peel_text s n len
  unfolding skip_to_colon
  peel_number-colon len zero s n h = absurd (omega arith)
  peel_number-colon len (suc offset) s n h = refl

  -- What `peel_netstring` takes off a text that starts with a netstring of less than 2 ^ 31 bytes.
  pub peel-netstring :
      (x tail : List ℕ) (e : ℕ)
      → length x < 2 ^ 31
      → peel_netstring signed (netstring x ++ tail) (length (netstring x) + e)
        ≡ done (piece_of (length x) (x ++ (comma ∷ tail)) tail e)
  unfolding peel_netstring
  peel-netstring x tail e h =
      let n = length x + 1 + e in
      let text = x ++ (comma ∷ tail) in
      let ds = decimal (length x) in
      let len : length (netstring x) + e ≡ length ds + suc n =
        omega (arith, length-append ds (colon ∷ (x ++ comma ∷ [])), length-append x (comma ∷ [])) in
      let some_digits : 0 < length ds = omega (arith, length-decimal (length x)) in
      let not_empty : (length ds + suc n == 0) ≡ false = ground arith in
      rw
        (
          append_assoc ds (colon ∷ (x ++ comma ∷ [])) tail,
          append_assoc x (comma ∷ []) tail,
          len,
          not_empty,
          parse-decimal (length x) text n h,
          peel_number-colon (length x) (length ds) text n some_digits,
        )
        (peel_text-append x tail e)

-- No `=` and no NUL.
unfoldable pub no_stop : List ℕ → Bool
no_stop [] = true
no_stop (c ∷ cs) = not (c == b'=' || c == 0) && no_stop cs

pub name_span-append :
    (name s : List ℕ)
    → no_stop name ≡ true
    → name_span (name ++ (b'=' ∷ s)) ≡ done (span_of name (b'=' ∷ s))
unfolding name_span no_stop
name_span-append [] s h = refl
name_span-append (c ∷ cs) s h = ground (arith, name_span-append cs s)

-- `sscanf` on a number below 2 ^ 31 and a byte that is no digit.
sscanf_digits :
    (d n : ℕ) (ds : List ℕ)
    → d < 10
    → scan_digits ((b'0' + d) ∷ ds) 0 ≡ done n
    → n < 2 ^ 31
    → sscanf_int ((b'0' + d) ∷ ds) ≡ done (some (pos n))
unfolding sscanf_int
sscanf_digits d n ds h e h' = ground arith

pub sscanf-decimal :
    (n : ℕ) (rest : List ℕ)
    → scan_digits rest n ≡ done n
    → n < 2 ^ 31
    → sscanf_int (decimal n ++ rest) ≡ done (some (pos n))
sscanf-decimal n rest e h =
    let (d, ds, lt, eq) = first_digit (suc n) n (omega arith) in
    let read : scan_digits (decimal n ++ rest) 0 ≡ done n =
      scan_decimal (suc n) n rest (omega arith) ∙ e in
    let read' = subst (λ l. scan_digits (l ++ rest) 0 ≡ done n) eq read in
    subst (λ l. sscanf_int (l ++ rest) ≡ done (some (pos n))) (sym eq)
      (sscanf_digits d n (ds ++ rest) lt read' h)
