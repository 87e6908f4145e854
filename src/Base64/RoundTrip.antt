-- ===== src/Base64/RoundTrip.antt =====
-- Decoding what `binary_to_base64` wrote.
use cluster_glue_import.Prelude.{
  ℕ, suc, ◌+◌, ◌-◌, ◌*◌, ◌/◌, ◌%◌, ◌^◌, ◌<◌, ◌≤◌, ◌≡◌, ◌≢◌, refl, ap, ◌∙◌, Bool, true, false, List,
  [], ◌∷◌, some, arith, ◌==◌, get_or, length, All,
}
use cluster_glue_import.Base64.{
  equals, b64_stringlen, sixbits_char, encode_loop, binary_to_base64, done, char_to_six_bits,
  last_group, group, decode_loop, too_small, base64_to_binary,
}
use cluster_glue_import.Base64.Table.{char_to_six_bits-b64chars, b64chars-ne-equals}

-- The length of the text is the one that `B64_stringlen` promises.
pub length-encode_loop : (xs : List ℕ) → length (encode_loop xs) ≡ b64_stringlen (length xs)
unfolding encode_loop
length-encode_loop [] = refl
length-encode_loop (a ∷ []) = refl
length-encode_loop (a ∷ b ∷ []) = refl
length-encode_loop (a ∷ b ∷ c ∷ rest) = omega (arith, length-encode_loop rest)

module _ (signed : Bool) where
  six_bits :
      (chunk power : ℕ)
      → char_to_six_bits signed (sixbits_char chunk power) ≡ done ((chunk / power) % 64)
  unfolding sixbits_char
  six_bits chunk power = char_to_six_bits-b64chars signed ((chunk / power) % 64) (omega arith)

  no_equals : (chunk power : ℕ) → (sixbits_char chunk power == equals) ≡ false
  unfolding sixbits_char
  no_equals chunk power = b64chars-ne-equals ((chunk / power) % 64) (omega arith)

  three :
      (a b c : ℕ) (rest : List ℕ)
      → a < 256
      → b < 256
      → c < 256
      → let chunk = (a * 2 ^ 16 + b * 2 ^ 8 + c) % 2 ^ 24 in
        group signed
          (sixbits_char chunk (2 ^ 18))
          (sixbits_char chunk (2 ^ 12))
          (sixbits_char chunk (2 ^ 6))
          (sixbits_char chunk 1)
          (done rest)
        ≡ done (a ∷ b ∷ c ∷ rest)
  unfolding group
  three a b c rest ha hb hc =
      let chunk = (a * 2 ^ 16 + b * 2 ^ 8 + c) % 2 ^ 24 in
      ground (
        arith,
        six_bits chunk (2 ^ 18),
        six_bits chunk (2 ^ 12),
        six_bits chunk (2 ^ 6),
        six_bits chunk 1,
      )

  last_three :
      (a b c : ℕ)
      → a < 256
      → b < 256
      → c < 256
      → decode_loop signed (encode_loop (a ∷ b ∷ c ∷ [])) ≡ done (a ∷ b ∷ c ∷ [])
  unfolding decode_loop last_group encode_loop
  last_three a b c ha hb hc =
      let chunk = (a * 2 ^ 16 + b * 2 ^ 8 + c) % 2 ^ 24 in
      ground (
        arith,
        six_bits chunk (2 ^ 18),
        six_bits chunk (2 ^ 12),
        six_bits chunk (2 ^ 6),
        six_bits chunk 1,
        no_equals chunk (2 ^ 6),
        no_equals chunk 1,
      )

  last_two :
      (a b : ℕ)
      → a < 256
      → b < 256
      → decode_loop signed (encode_loop (a ∷ b ∷ [])) ≡ done (a ∷ b ∷ [])
  unfolding decode_loop last_group encode_loop
  last_two a b ha hb =
      let chunk = a * 2 ^ 16 + b * 2 ^ 8 in
      ground (
        arith,
        six_bits chunk (2 ^ 18),
        six_bits chunk (2 ^ 12),
        six_bits chunk (2 ^ 6),
        no_equals chunk (2 ^ 6),
      )

  last_one : (a : ℕ) → a < 256 → decode_loop signed (encode_loop (a ∷ [])) ≡ done (a ∷ [])
  unfolding decode_loop last_group encode_loop
  last_one a ha =
      let chunk = a * 2 ^ 16 in ground (arith, six_bits chunk (2 ^ 18), six_bits chunk (2 ^ 12))

  decode_group :
      (c1 c2 c3 c4 : ℕ) (ys : List ℕ)
      → ys ≢ []
      → decode_loop signed (c1 ∷ c2 ∷ c3 ∷ c4 ∷ ys)
        ≡ group signed c1 c2 c3 c4 (decode_loop signed ys)
  unfolding decode_loop
  decode_group c1 c2 c3 c4 [] h = absurd (h refl)
  decode_group c1 c2 c3 c4 (c5 ∷ cs) h = refl

  encode_loop-ne-nil : (x : ℕ) (xs : List ℕ) → encode_loop (x ∷ xs) ≢ []
  encode_loop-ne-nil x xs e = absurd (omega (arith, length-encode_loop (x ∷ xs), ap length e))

  decode-encode_loop :
      (x : ℕ) (xs : List ℕ)
      → All (λ b. b < 256) (x ∷ xs)
      → decode_loop signed (encode_loop (x ∷ xs)) ≡ done (x ∷ xs)
  unfolding encode_loop
  decode-encode_loop a [] (ha, _) = last_one a ha
  decode-encode_loop a (b ∷ []) (ha, (hb, _)) = last_two a b ha hb
  decode-encode_loop a (b ∷ c ∷ []) (ha, (hb, (hc, _))) = last_three a b c ha hb hc
  decode-encode_loop a (b ∷ c ∷ d ∷ rest) (ha, (hb, (hc, hr))) =
      rw (decode_group _ _ _ _ _ (encode_loop-ne-nil d rest), decode-encode_loop d rest hr)
        (three a b c (d ∷ rest) ha hb hc)

pub get_or_behind :
    (c1 c2 c3 c4 k : ℕ) (ys : List ℕ)
    → k ≤ length ys
    → get_or (c1 ∷ c2 ∷ c3 ∷ c4 ∷ ys) (suc (suc (suc (suc (length ys)))) - k) 0
      ≡ get_or ys (length ys - k) 0
get_or_behind c1 c2 c3 c4 k ys h =
    let e : suc (suc (suc (suc (length ys)))) - k ≡ suc (suc (suc (suc (length ys - k)))) =
      omega arith in
    rw e

-- The padding at the end: one character where two bytes are left over, two where one is.
last_char :
    (xs : List ℕ)
    → 0 < length xs % 3
    → get_or (encode_loop xs) (length (encode_loop xs) - 1) 0 ≡ equals
unfolding encode_loop
last_char [] h = absurd (omega arith)
last_char (a ∷ []) h = refl
last_char (a ∷ b ∷ []) h = refl
last_char (a ∷ b ∷ c ∷ rest) h =
    get_or_behind _ _ _ _ 1 (encode_loop rest) (omega (arith, length-encode_loop rest))
    ∙ last_char rest (omega arith)

last_but_one :
    (xs : List ℕ)
    → length xs % 3 ≡ 1
    → get_or (encode_loop xs) (length (encode_loop xs) - 2) 0 ≡ equals
unfolding encode_loop
last_but_one [] h = absurd (omega arith)
last_but_one (a ∷ []) h = refl
last_but_one (a ∷ b ∷ []) h = absurd (omega arith)
last_but_one (a ∷ b ∷ c ∷ rest) h =
    get_or_behind _ _ _ _ 2 (encode_loop rest) (omega (arith, length-encode_loop rest))
    ∙ last_but_one rest (omega arith)

enough_room :
    (xs : List ℕ) (outlen : ℕ) → length xs ≤ outlen → too_small (encode_loop xs) outlen ≡ false
unfolding too_small
enough_room xs outlen h = ground (arith, length-encode_loop xs, last_char xs, last_but_one xs)

written :
    (xs text : List ℕ) (outlen : ℕ) → binary_to_base64 xs outlen ≡ some text → encode_loop xs ≡ text
unfolding binary_to_base64
written xs text outlen e = ground arith

multiple_of_four : (xs : List ℕ) → (length (encode_loop xs) % 4 == 0) ≡ true
multiple_of_four xs = rw (length-encode_loop xs) (ground arith)

not_empty : (x : ℕ) (xs : List ℕ) → (length (encode_loop (x ∷ xs)) == 0) ≡ false
not_empty x xs = rw (length-encode_loop (x ∷ xs)) (ground arith)

decode_written :
    (signed : Bool) (xs : List ℕ) (room : ℕ)
    → All (λ b. b < 256) xs
    → length xs ≤ room
    → base64_to_binary signed (encode_loop xs) room ≡ done xs
unfolding base64_to_binary
decode_written signed [] room h le =
    rw (enough_room [] room le, multiple_of_four []) (unfold encode_loop in refl)
decode_written signed (x ∷ xs) room h le =
    rw (enough_room (x ∷ xs) room le, multiple_of_four (x ∷ xs), not_empty x xs)
      (decode-encode_loop signed x xs h)

-- Whatever bytes are encoded into an area that is large enough for the text, the text is decoded to
-- the same bytes, in an area of no more than their number.
pub base64_to_binary-binary_to_base64 :
    (signed : Bool) (xs text : List ℕ) (outlen room : ℕ)
    → All (λ b. b < 256) xs
    → binary_to_base64 xs outlen ≡ some text
    → length xs ≤ room
    → base64_to_binary signed text room ≡ done xs
base64_to_binary-binary_to_base64 signed xs text outlen room h e le =
    rw (← written xs text outlen e) (decode_written signed xs room h le)

-- The text is written exactly if there is room for it and its terminator, and it has the length
-- that `B64_stringlen` says.
pub binary_to_base64_total :
    (xs : List ℕ) (outlen : ℕ)
    → b64_stringlen (length xs) < outlen
    → (text : List ℕ) × (binary_to_base64 xs outlen ≡ some text)
      × (length text ≡ b64_stringlen (length xs))
unfolding binary_to_base64
binary_to_base64_total xs outlen h = (encode_loop xs, ground arith, length-encode_loop xs)
