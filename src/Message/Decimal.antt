-- ===== src/Message/Decimal.antt =====
-- The digits that `sprintf` writes, as `bytes_for_int` counts them and as they are read back.
use cluster_glue_import.Prelude.{
  ℕ, zero, suc, ◌+◌, ◌*◌, ◌/◌, ◌%◌, ◌^◌, ◌<◌, ◌≤◌, ◌≡◌, refl, ◌∙◌, inl, inr, ◌⊎◌, Bool, List, [],
  ◌∷◌, ◌++◌, append_assoc, some, ltb, Bool-cases, length, length-append, pos, arith,
}
use cluster_glue_import.Message.{done}
use cluster_glue_import.Message.Netstring.{digits, decimal, digit_count, bytes_for_int}
use cluster_glue_import.Message.Parse.{parse_loop}
use cluster_glue_import.Message.Scan.{scan_digits, sscanf_int}

pub last_digit : (k n : ℕ) → 9 < n → digits (suc k) n ≡ digits k (n / 10) ++ (b'0' + n % 10) ∷ []
unfolding digits
last_digit k n h = ground arith

pub one_digit : (k n : ℕ) → n < 10 → digits (suc k) n ≡ (b'0' + n) ∷ []
unfolding digits
one_digit k n h = ground arith

count_more : (j n : ℕ) → 9 < n → digit_count (suc j) n ≡ suc (digit_count j (n / 10))
unfolding digit_count
count_more j n h = ground arith

count_none : (j n : ℕ) → n < 10 → digit_count j n ≡ 0
unfolding digit_count
count_none zero n h = refl
count_none (suc j) n h = ground arith

pub small_or_large : (n : ℕ) → (n < 10) ⊎ (9 < n)
small_or_large n = elim (Bool-cases (ltb 9 n)) [
  | inl e ↦ inr (ground arith)
  | inr e ↦ inl (ground arith)
]

length-digits : (k j n : ℕ) → n < k → n ≤ j → length (digits k n) ≡ digit_count j n + 1
length-digits zero j n h h' = absurd (omega arith)
length-digits (suc k) zero n h h' =
    rw (one_digit k n (omega arith), count_none 0 n (omega arith)) refl
length-digits (suc k) (suc j) n h h' = elim (small_or_large n) [
  | inl lt ↦ rw (one_digit k n lt, count_none (suc j) n lt) refl
  | inr le ↦
      rw
        (
          last_digit k n le,
          length-append (digits k (n / 10)) ((b'0' + n % 10) ∷ []),
          count_more j n le,
        )
        (omega (arith, length-digits k j (n / 10) (omega arith) (omega arith)))
]

-- `bytes_for_int` is the number of characters that `sprintf` writes for `%d`, for every number that
-- is not below zero.
pub length-decimal : (n : ℕ) → length (decimal n) ≡ bytes_for_int (pos n)
length-decimal n = length-digits (suc n) n n (omega arith) (omega arith)

module _ (signed : Bool) where
  parse_digit :
      (m d : ℕ) (rest : List ℕ) (e offset : ℕ)
      → d < 10
      → m * 10 + d < 2 ^ 31
      → parse_loop signed ((b'0' + d) ∷ rest) (suc e) (pos m) offset
        ≡ parse_loop signed rest e (pos (m * 10 + d)) (offset + 1)
  unfolding parse_loop
  parse_digit m d rest e offset h h' = ground arith

  pub parse_digits :
      (k n : ℕ) (rest : List ℕ) (e : ℕ)
      → n < k
      → n < 2 ^ 31
      → parse_loop signed (digits k n ++ rest) (length (digits k n) + e) (pos 0) 0
        ≡ parse_loop signed rest e (pos n) (length (digits k n))
  parse_digits zero n rest e h h' = absurd (omega arith)
  parse_digits (suc k) n rest e h h' = elim (small_or_large n) [
    | inl lt ↦ rw (one_digit k n lt) (ground (arith, parse_digit 0 n rest e 0 lt (omega arith)))
    | inr le ↦
        let ds = digits k (n / 10) in
        let split : length (ds ++ (b'0' + n % 10) ∷ []) ≡ length ds + 1 =
          length-append ds ((b'0' + n % 10) ∷ []) in
        let more : length ds + 1 + e ≡ length ds + suc e = omega arith in
        let whole : n / 10 * 10 + n % 10 ≡ n = omega arith in
        rw (last_digit k n le, split, append_assoc ds ((b'0' + n % 10) ∷ []) rest, more)
          (parse_digits k (n / 10) ((b'0' + n % 10) ∷ rest) (suc e) (omega arith) (omega arith)
            ∙ parse_digit (n / 10) (n % 10) rest e (length ds) (omega arith) (omega arith)
            ∙ rw whole refl)
  ]

scan_digit :
    (m d : ℕ) (rest : List ℕ)
    → d < 10
    → scan_digits ((b'0' + d) ∷ rest) m ≡ scan_digits rest (m * 10 + d)
unfolding scan_digits
scan_digit m d rest h = ground arith

pub scan_decimal :
    (k n : ℕ) (rest : List ℕ) → n < k → scan_digits (digits k n ++ rest) 0 ≡ scan_digits rest n
scan_decimal zero n rest h = absurd (omega arith)
scan_decimal (suc k) n rest h = elim (small_or_large n) [
  | inl lt ↦ rw (one_digit k n lt) (ground (arith, scan_digit 0 n rest lt))
  | inr le ↦
      let whole : n / 10 * 10 + n % 10 ≡ n = omega arith in
      rw (last_digit k n le, append_assoc (digits k (n / 10)) ((b'0' + n % 10) ∷ []) rest)
        (scan_decimal k (n / 10) ((b'0' + n % 10) ∷ rest) (omega arith)
          ∙ scan_digit (n / 10) (n % 10) rest (omega arith)
          ∙ rw whole refl)
]

-- The first digit.
pub first_digit :
    (k n : ℕ) → n < k → (d : ℕ) × (ds : List ℕ) × (d < 10) × (digits k n ≡ (b'0' + d) ∷ ds)
first_digit zero n h = absurd (omega arith)
first_digit (suc k) n h = elim (small_or_large n) [
  | inl lt ↦ (n, [], lt, one_digit k n lt)
  | inr le ↦
      let (d, ds, lt, e) = first_digit k (n / 10) (omega arith) in
      (d, ds ++ (b'0' + n % 10) ∷ [], lt, rw (last_digit k n le, e) refl)
]

scan_number_digits :
    (d n : ℕ) (ds rest : List ℕ)
    → d < 10
    → scan_digits ((b'0' + d) ∷ ds) 0 ≡ done n
    → n < 2 ^ 31
    → sscanf_int ((b'0' + d) ∷ ds) ≡ done (some (pos n))
unfolding sscanf_int
scan_number_digits d n ds rest h e h' = ground arith
