-- ===== src/Uuid.antt =====
-- lib/clplumbing/cl_uuid.c over replace/uuid_parse.c: a uuid is its sixteen bytes.
-- In a C expression `(tmp << 8) | b` the low eight bits are free, so it is written `tmp * 256 + b`.
pub mod Laws
mod Tests
use cluster_glue_import.Prelude.{
  ℕ, zero, suc, ◌+◌, ◌*◌, ◌/◌, ◌%◌, ◌^◌, ◌<◌, ◌≡◌, refl, Bool, true, false, ◌&&◌, List, [], ◌∷◌,
  ◌++◌, ltb, ◌==◌, if◌then◌else◌, ℤ, pos, negsuc, is_zero, get_or, take, drop, replicate, length,
  All,
}

abbrev pub Uuid : Type 0
Uuid = List ℕ

-- `struct uuid`.
pub record Fields : Type 0 where
  pub time_low : ℕ
  pub time_mid : ℕ
  pub time_hi_and_version : ℕ
  pub clock_seq : ℕ
  pub node : List ℕ

-- `(unsigned char) n`.
abbrev pub byte : ℕ → ℕ
byte n = n % 256

pub uuid_pack : Fields → Uuid
uuid_pack f =
    byte (f.time_low / 256 / 256 / 256)
    ∷ byte (f.time_low / 256 / 256)
    ∷ byte (f.time_low / 256)
    ∷ byte f.time_low
    ∷ byte (f.time_mid / 256)
    ∷ byte f.time_mid
    ∷ byte (f.time_hi_and_version / 256)
    ∷ byte f.time_hi_and_version
    ∷ byte (f.clock_seq / 256)
    ∷ byte f.clock_seq
    ∷ take 6 f.node

-- The bytes at an offset, most significant first, as a 32-bit word and as a 16-bit one.
abbrev pub word32 : Uuid → ℕ → ℕ
word32 u i =
    (((get_or u i 0 * 256 + get_or u (i + 1) 0) * 256 + get_or u (i + 2) 0) * 256
      + get_or u (i + 3) 0)
    % 2 ^ 32

abbrev pub word16 : Uuid → ℕ → ℕ
word16 u i = (get_or u i 0 * 256 + get_or u (i + 1) 0) % 2 ^ 16

pub uuid_unpack : Uuid → Fields
uuid_unpack u = record {
  time_low = word32 u 0;
  time_mid = word16 u 4;
  time_hi_and_version = word16 u 6;
  clock_seq = word16 u 8;
  node = take 6 (drop 10 u);
}

-- `memset(uu, 0, 16)`, also the initial value of `nulluuid`.
pub uuid_clear : Uuid
uuid_clear = replicate 16 0

-- `UUCMP`: the sign of a comparison, and the next test where the two are equal.
abbrev pub uucmp : ℕ → ℕ → ℤ → ℤ
uucmp a b next = if a == b then next else if ltb a b then negsuc 0 else pos 1

-- `memcmp`: the sign of the first difference.
pub memcmp : List ℕ → List ℕ → ℤ
memcmp [] [] = pos 0
memcmp [] (b ∷ bs) = negsuc 0
memcmp (a ∷ as') [] = pos 1
memcmp (a ∷ as') (b ∷ bs) = uucmp a b (memcmp as' bs)

pub compare_fields : Fields → Fields → ℤ
unfolding memcmp
compare_fields f g = uucmp f.time_low g.time_low (
    uucmp f.time_mid g.time_mid (
      uucmp f.time_hi_and_version g.time_hi_and_version
        (uucmp f.clock_seq g.clock_seq (memcmp f.node g.node))))

pub uuid_compare : Uuid → Uuid → ℤ
unfolding compare_fields uuid_unpack
uuid_compare u v = compare_fields (uuid_unpack u) (uuid_unpack v)

pub cl_uuid_compare : Uuid → Uuid → ℤ
unfolding uuid_compare
cl_uuid_compare u v = uuid_compare u v

pub cl_uuid_g_equal : Uuid → Uuid → Bool
unfolding cl_uuid_compare
cl_uuid_g_equal u v = is_zero (cl_uuid_compare u v)

-- The loop over the sixteen bytes, which stops at one that is not 0.
unfoldable pub uuid_is_null : Uuid → Bool
uuid_is_null [] = true
uuid_is_null (c ∷ cs) = if c == 0 then uuid_is_null cs else false

unfoldable pub cl_uuid_is_null : Uuid → Bool
unfolding uuid_is_null
cl_uuid_is_null u = uuid_is_null u

-- `cl_uuid_g_hash`: the sum of the four 32-bit words in network order, modulo 2 ^ 32.
pub cl_uuid_g_hash : Uuid → ℕ
cl_uuid_g_hash u =
    (((word32 u 0 + word32 u 4) % 2 ^ 32 + word32 u 8) % 2 ^ 32 + word32 u 12) % 2 ^ 32

-- Sixteen bytes.
abbrev pub IsUuid : Uuid → Type 0
IsUuid u = (length u ≡ 16) × All (λ b. b < 256) u
