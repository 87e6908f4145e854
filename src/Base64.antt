-- ===== src/Base64.antt =====
-- lib/clplumbing/base64.c and include/clplumbing/base64.h, on lists of bytes. In a C expression
-- `(x << k) | y` whose low k bits are free, `|` is written `+`.
pub mod Table
pub mod RoundTrip
pub mod Bounds
mod Tests
use cluster_glue_import.Prelude.{
  ℕ, zero, suc, ◌+◌, ◌-◌, ◌*◌, ◌/◌, ◌%◌, ◌^◌, Bool, true, false, ◌&&◌, ◌||◌, not, List, [], ◌∷◌,
  ◌++◌, Option, none, some, ltb, ◌==◌, if◌then◌else◌, get_elem?, get_or, set, replicate, length,
  codes,
}

abbrev pub b64chars : List ℕ
b64chars = codes "ABCDEFGHIJKLMNOPQRSTUVWXYZabcdefghijklmnopqrstuvwxyz0123456789+/"

abbrev pub equals : ℕ
equals = b'='

abbrev pub b64_stringlen : ℕ → ℕ
b64_stringlen n = ((n + 2) / 3) * 4

abbrev pub b64_maxbytelen : ℕ → ℕ
b64_maxbytelen n = (n / 4) * 3

-- `b64chars[(chunk >> shift) & MASK6]`, with the shift given as a power of two.
pub sixbits_char : ℕ → ℕ → ℕ
sixbits_char chunk power = get_or b64chars ((chunk / power) % 64) 0

-- The loop over whole chunks, and the one or two bytes that are left over.
pub encode_loop : List ℕ → List ℕ
unfolding sixbits_char
encode_loop [] = []
encode_loop (a ∷ []) =
    let chunk = a * 2 ^ 16 in
    sixbits_char chunk (2 ^ 18) ∷ sixbits_char chunk (2 ^ 12) ∷ equals ∷ equals ∷ []
encode_loop (a ∷ b ∷ []) =
    let chunk = a * 2 ^ 16 + b * 2 ^ 8 in
    sixbits_char chunk (2 ^ 18)
    ∷ sixbits_char chunk (2 ^ 12)
    ∷ sixbits_char chunk (2 ^ 6)
    ∷ equals
    ∷ []
encode_loop (a ∷ b ∷ c ∷ rest) =
    let chunk = (a * 2 ^ 16 + b * 2 ^ 8 + c) % 2 ^ 24 in
    sixbits_char chunk (2 ^ 18)
    ∷ sixbits_char chunk (2 ^ 12)
    ∷ sixbits_char chunk (2 ^ 6)
    ∷ sixbits_char chunk 1
    ∷ encode_loop rest

-- `none` is the return value -1.
unfoldable pub binary_to_base64 : List ℕ → ℕ → Option (List ℕ)
unfolding encode_loop
binary_to_base64 input outlen =
    if ltb outlen (b64_stringlen (length input) + 1) then none else some (encode_loop input)

abbrev pub bad_value : ℕ
bad_value = 0xff

-- `init_b64_values`: the loop over the characters, from index j on.
pub init_loop : List ℕ → ℕ → List ℕ → List ℕ
init_loop [] j values = values
init_loop (c ∷ cs) j values = init_loop cs (j + 1) (set values c j)

pub b64values : List ℕ
unfolding init_loop
b64values = init_loop b64chars 0 (replicate 256 bad_value)

-- A value, the return value -1, or a read outside of an array.
pub data Outcome {ℓ} (A : Type ℓ) : Type ℓ where
  done : A → Outcome A
  refused : Outcome A
  fault : Outcome A

infixl 5 ◌>>=◌
abbrev pub ◌>>=◌ {ℓ κ} : {A : Type ℓ} {B : Type κ} → Outcome A → (A → Outcome B) → Outcome B
done a >>= f = f a
refused >>= f = refused
fault >>= f = fault

-- `(unsigned int) in` of a `char` is the byte where it is ASCII. Where `char` is signed, any other
-- byte is a negative number and its conversion lies behind the end of the array.
abbrev pub char_index : Bool → ℕ → ℕ
char_index signed c = if signed && ltb 127 c then 2 ^ 32 + c - 256 else c

-- `Char2SixBits`.
pub char_to_six_bits : Bool → ℕ → Outcome ℕ
char_to_six_bits signed c = elim (get_elem? b64values (char_index signed c)) [
  | none ↦ fault
  | some v ↦ if v == bad_value then refused else done v
]

-- The three bytes of a chunk of four times six bits.
abbrev pub high_byte : ℕ → ℕ
high_byte chunk = (chunk / 2 ^ 16) % 256

abbrev pub middle_byte : ℕ → ℕ
middle_byte chunk = (chunk / 2 ^ 8) % 256

abbrev pub low_byte : ℕ → ℕ
low_byte chunk = chunk % 256

abbrev pub chunk_of : ℕ → ℕ → ℕ → ℕ → ℕ
chunk_of s1 s2 s3 s4 = s1 * 2 ^ 18 + s2 * 2 ^ 12 + s3 * 2 ^ 6 + s4

-- The last four characters: one, two or three bytes.
pub last_group : Bool → ℕ → ℕ → ℕ → ℕ → Outcome (List ℕ)
last_group signed c1 c2 c3 c4 = do
  s1 ← char_to_six_bits signed c1
  s2 ← char_to_six_bits signed c2
  if c3 == equals then done (high_byte (chunk_of s1 s2 0 0) ∷ []) else do
    s3 ← char_to_six_bits signed c3
    if c4 == equals
        then done (high_byte (chunk_of s1 s2 s3 0) ∷ middle_byte (chunk_of s1 s2 s3 0) ∷ [])
        else do
          s4 ← char_to_six_bits signed c4
          done (
              high_byte (chunk_of s1 s2 s3 s4)
              ∷ middle_byte (chunk_of s1 s2 s3 s4)
              ∷ low_byte (chunk_of s1 s2 s3 s4)
              ∷ [])

-- One round of the loop: four characters into three bytes, which stand before the rest.
pub group : Bool → ℕ → ℕ → ℕ → ℕ → Outcome (List ℕ) → Outcome (List ℕ)
group signed c1 c2 c3 c4 rest = do
  s1 ← char_to_six_bits signed c1
  s2 ← char_to_six_bits signed c2
  s3 ← char_to_six_bits signed c3
  s4 ← char_to_six_bits signed c4
  out ← rest
  done (
      high_byte (chunk_of s1 s2 s3 s4)
      ∷ middle_byte (chunk_of s1 s2 s3 s4)
      ∷ low_byte (chunk_of s1 s2 s3 s4)
      ∷ out)

-- The loop stops at the last four characters. The last clause is for a length that is no multiple
-- of four, which `base64_to_binary` refuses before.
pub decode_loop : Bool → List ℕ → Outcome (List ℕ)
decode_loop signed (c1 ∷ c2 ∷ c3 ∷ c4 ∷ []) = last_group signed c1 c2 c3 c4
decode_loop signed (c1 ∷ c2 ∷ c3 ∷ c4 ∷ c5 ∷ cs) =
    group signed c1 c2 c3 c4 (decode_loop signed (c5 ∷ cs))
decode_loop signed _ = fault

-- The test for room: a shortage is accepted where padding makes up for it.
pub too_small : List ℕ → ℕ → Bool
too_small input outlen =
    let inlen = length input in
    let residue = b64_maxbytelen inlen - outlen in
    ltb outlen (b64_maxbytelen inlen)
    && (ltb 2 residue
        || not (get_or input (inlen - 1) 0 == equals)
        || (residue == 2 && not (get_or input (inlen - 2) 0 == equals)))

unfoldable pub base64_to_binary : Bool → List ℕ → ℕ → Outcome (List ℕ)
base64_to_binary signed input outlen =
    if too_small input outlen
    then refused
    else if not (length input % 4 == 0)
    then refused
    else if length input == 0
    then done []
    else decode_loop signed input
