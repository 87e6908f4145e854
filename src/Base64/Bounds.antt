-- ===== src/Base64/Bounds.antt =====
-- What decoding writes, and what it reads from its table.
use cluster_glue_import.Prelude.{
  ℕ, zero, suc, ◌+◌, ◌-◌, ◌%◌, ◌<◌, ◌≤◌, ◌≡◌, refl, Bool, true, List, [], ◌∷◌, none, arith, ◌==◌,
  if◌then◌else◌, get_elem?, get_or, length,
}
use cluster_glue_import.Base64.RoundTrip.{get_or_behind}
use cluster_glue_import.Base64.{
  equals, b64_maxbytelen, Outcome, done, fault, b64values, char_index, char_to_six_bits, last_group,
  group, decode_loop, too_small, base64_to_binary,
}

-- The padding at the end of a text whose length is a multiple of four.
abbrev pub padding : List ℕ → ℕ
padding text =
    if get_or text (length text - 2) 0 == equals
    then 2
    else if get_or text (length text - 1) 0 == equals
    then 1
    else 0

padding_behind :
    (c1 c2 c3 c4 c5 : ℕ) (cs : List ℕ)
    → length (c5 ∷ cs) % 4 ≡ 0
    → padding (c1 ∷ c2 ∷ c3 ∷ c4 ∷ c5 ∷ cs) ≡ padding (c5 ∷ cs)
padding_behind c1 c2 c3 c4 c5 cs m = rw (
  get_or_behind c1 c2 c3 c4 1 (c5 ∷ cs) (omega arith),
  get_or_behind c1 c2 c3 c4 2 (c5 ∷ cs) (omega arith),
)

module _ (signed : Bool) where
  last_group-length :
      (c1 c2 c3 c4 : ℕ) (out : List ℕ)
      → last_group signed c1 c2 c3 c4 ≡ done out
      → length out ≡ (if c3 == equals then 1 else if c4 == equals then 2 else 3)
  unfolding last_group
  last_group-length c1 c2 c3 c4 out h = ground arith

  group-length :
      (c1 c2 c3 c4 : ℕ) (rest : Outcome (List ℕ)) (out : List ℕ)
      → group signed c1 c2 c3 c4 rest ≡ done out
      → (out' : List ℕ) × (rest ≡ done out') × (length out ≡ length out' + 3)
  unfolding group
  group-length c1 c2 c3 c4 rest out h = ground arith

  decode_loop-length :
      (text out : List ℕ)
      → decode_loop signed text ≡ done out
      → length text % 4 ≡ 0
      → length out + padding text ≡ b64_maxbytelen (length text)
  unfolding decode_loop
  decode_loop-length [] out h m = cc
  decode_loop-length (c1 ∷ []) out h m = cc
  decode_loop-length (c1 ∷ c2 ∷ []) out h m = cc
  decode_loop-length (c1 ∷ c2 ∷ c3 ∷ []) out h m = cc
  decode_loop-length (c1 ∷ c2 ∷ c3 ∷ c4 ∷ []) out h m =
      ground (arith, last_group-length c1 c2 c3 c4 out h)
  decode_loop-length (c1 ∷ c2 ∷ c3 ∷ c4 ∷ c5 ∷ cs) out h m =
      let (out', e, n) = group-length c1 c2 c3 c4 (decode_loop signed (c5 ∷ cs)) out h in
      rw (padding_behind c1 c2 c3 c4 c5 cs (omega arith))
        (omega (arith, n, decode_loop-length (c5 ∷ cs) out' e (omega arith)))

  -- Where `base64_to_binary` succeeds, it yields at most as many bytes as the area has, also where
  -- the area is smaller than the length of the text suggests.
  pub base64_to_binary-le :
      (text out : List ℕ) (room : ℕ)
      → base64_to_binary signed text room ≡ done out
      → length out ≤ room
  unfolding base64_to_binary too_small
  base64_to_binary-le text out room h = ground (arith, decode_loop-length text out)

get_elem?-beyond : (xs : List ℕ) (i : ℕ) → length xs ≤ i → get_elem? xs i ≡ none
get_elem?-beyond [] i h = refl
get_elem?-beyond (x ∷ xs) zero h = absurd (omega arith)
get_elem?-beyond (x ∷ xs) (suc i) h = get_elem?-beyond xs i (omega arith)

negative_index : (c : ℕ) → 127 < c → c < 256 → 256 ≤ char_index true c
negative_index c h k = ground arith

length-b64values : length b64values ≡ 256
unfolding b64values
length-b64values = refl

-- Where `char` is signed, a byte above 127 is looked up behind the end of the 256 entries.
pub signed_char_fault : (c : ℕ) → 127 < c → c < 256 → char_to_six_bits true c ≡ fault
unfolding char_to_six_bits
signed_char_fault c h k = rw (
  get_elem?-beyond b64values (char_index true c)
      (omega (arith, length-b64values, negative_index c h k)),
  char_to_six_bits,
)
