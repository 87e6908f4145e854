-- ===== src/Uuid/Laws.antt =====
-- Packing and unpacking are inverse, and the comparison decides equality.
use cluster_glue_import.Prelude.{
  bytes_eq, bytes_eq_iff, ℕ, zero, suc, ◌^◌, ◌<◌, ◌≡◌, refl, sym, ap, ◌∙◌, ◌↔◌, true, List, [], ◌∷◌,
  arith, is_zero, take, replicate, length,
}
use cluster_glue_import.Uuid.{
  Uuid, Fields, uuid_pack, uuid_unpack, uuid_clear, memcmp, compare_fields, cl_uuid_g_equal,
  uuid_is_null, cl_uuid_is_null, IsUuid,
}

abbrev pub IsFields : Fields → Type 0
IsFields f =
    (f.time_low < 2 ^ 32)
    × (f.time_mid < 2 ^ 16)
    × (f.time_hi_and_version < 2 ^ 16)
    × (f.clock_seq < 2 ^ 16)
    × (length f.node ≡ 6)

take_all : (xs : List ℕ) (n : ℕ) → length xs ≡ n → take n xs ≡ xs
take_all [] zero h = refl
take_all [] (suc n) h = refl
take_all (x ∷ xs) zero h = absurd (omega arith)
take_all (x ∷ xs) (suc n) h = ap (◌∷◌ x) (take_all xs n (omega arith))

double_take : (xs : List ℕ) → length xs ≡ 6 → take 6 (take 6 xs) ≡ xs
double_take xs h = rw (take_all xs 6 h, take_all xs 6 h)

-- Fields within their widths survive being packed.
pub unpack-pack : (f : Fields) → IsFields f → uuid_unpack (uuid_pack f) ≡ f
unfolding uuid_unpack uuid_pack
unpack-pack f (a, b, c, d, e) = ground (arith, double_take f.node e)

pack-unpack : (u : Uuid) → IsUuid u → uuid_pack (uuid_unpack u) ≡ u
unfolding uuid_pack uuid_unpack
pack-unpack [] (h, b) = absurd (omega arith)
pack-unpack (a0 ∷ []) (h, b) = absurd (omega arith)
pack-unpack (a0 ∷ a1 ∷ []) (h, b) = absurd (omega arith)
pack-unpack (a0 ∷ a1 ∷ a2 ∷ []) (h, b) = absurd (omega arith)
pack-unpack (a0 ∷ a1 ∷ a2 ∷ a3 ∷ []) (h, b) = absurd (omega arith)
pack-unpack (a0 ∷ a1 ∷ a2 ∷ a3 ∷ a4 ∷ []) (h, b) = absurd (omega arith)
pack-unpack (a0 ∷ a1 ∷ a2 ∷ a3 ∷ a4 ∷ a5 ∷ []) (h, b) = absurd (omega arith)
pack-unpack (a0 ∷ a1 ∷ a2 ∷ a3 ∷ a4 ∷ a5 ∷ a6 ∷ []) (h, b) = absurd (omega arith)
pack-unpack (a0 ∷ a1 ∷ a2 ∷ a3 ∷ a4 ∷ a5 ∷ a6 ∷ a7 ∷ []) (h, b) = absurd (omega arith)
pack-unpack (a0 ∷ a1 ∷ a2 ∷ a3 ∷ a4 ∷ a5 ∷ a6 ∷ a7 ∷ a8 ∷ []) (h, b) = absurd (omega arith)
pack-unpack (a0 ∷ a1 ∷ a2 ∷ a3 ∷ a4 ∷ a5 ∷ a6 ∷ a7 ∷ a8 ∷ a9 ∷ []) (h, b) = absurd (omega arith)
pack-unpack (a0 ∷ a1 ∷ a2 ∷ a3 ∷ a4 ∷ a5 ∷ a6 ∷ a7 ∷ a8 ∷ a9 ∷ a10 ∷ []) (h, b) =
    absurd (omega arith)
pack-unpack (a0 ∷ a1 ∷ a2 ∷ a3 ∷ a4 ∷ a5 ∷ a6 ∷ a7 ∷ a8 ∷ a9 ∷ a10 ∷ a11 ∷ []) (h, b) =
    absurd (omega arith)
pack-unpack (a0 ∷ a1 ∷ a2 ∷ a3 ∷ a4 ∷ a5 ∷ a6 ∷ a7 ∷ a8 ∷ a9 ∷ a10 ∷ a11 ∷ a12 ∷ []) (h, b) =
    absurd (omega arith)
pack-unpack (a0 ∷ a1 ∷ a2 ∷ a3 ∷ a4 ∷ a5 ∷ a6 ∷ a7 ∷ a8 ∷ a9 ∷ a10 ∷ a11 ∷ a12 ∷ a13 ∷ []) (h, b) =
    absurd (omega arith)
pack-unpack (a0 ∷ a1 ∷ a2 ∷ a3 ∷ a4 ∷ a5 ∷ a6 ∷ a7 ∷ a8 ∷ a9 ∷ a10 ∷ a11 ∷ a12 ∷ a13 ∷ a14 ∷ [])
      (h, b) =
    absurd (omega arith)
pack-unpack
      (a0 ∷ a1 ∷ a2 ∷ a3 ∷ a4 ∷ a5 ∷ a6 ∷ a7 ∷ a8 ∷ a9 ∷ a10 ∷ a11 ∷ a12 ∷ a13 ∷ a14 ∷ a15 ∷ [])
      (h, b) =
    ground arith
pack-unpack
      (a0 ∷ a1 ∷ a2 ∷ a3 ∷ a4 ∷ a5 ∷ a6 ∷ a7 ∷ a8 ∷ a9 ∷ a10 ∷ a11 ∷ a12 ∷ a13 ∷ a14 ∷ a15 ∷ a16
        ∷ r)
      (h, b) =
    absurd (omega arith)

memcmp_zero : (xs ys : List ℕ) → is_zero (memcmp xs ys) ≡ bytes_eq xs ys
unfolding memcmp bytes_eq
memcmp_zero [] [] = refl
memcmp_zero [] (b ∷ bs) = refl
memcmp_zero (a ∷ as') [] = refl
memcmp_zero (a ∷ as') (b ∷ bs) = ground (arith, memcmp_zero as' bs)

field_path :
    (f g : Fields)
    → f.time_low ≡ g.time_low
    → f.time_mid ≡ g.time_mid
    → f.time_hi_and_version ≡ g.time_hi_and_version
    → f.clock_seq ≡ g.clock_seq
    → f.node ≡ g.node
    → f ≡ g
field_path f g a b c d e = cc

compare_fields_zero : (f g : Fields) → is_zero (compare_fields f g) ≡ true → f ≡ g
unfolding compare_fields
compare_fields_zero f g h =
    ground (arith, memcmp_zero f.node g.node, bytes_eq_iff f.node g.node, field_path f g)

compare_fields_refl : (f : Fields) → is_zero (compare_fields f f) ≡ true
unfolding compare_fields
compare_fields_refl f = ground (arith, memcmp_zero f.node f.node, bytes_eq_iff f.node f.node)

-- On two sixteen-byte uuids the key test of the hash tables is equality of the bytes.
pub cl_uuid_g_equal_iff :
    (u v : Uuid) → IsUuid u → IsUuid v → (cl_uuid_g_equal u v ≡ true) ↔ (u ≡ v)
unfolding cl_uuid_g_equal
cl_uuid_g_equal_iff u v hu hv = (there, back)
  where
    there : is_zero (compare_fields (uuid_unpack u) (uuid_unpack v)) ≡ true → u ≡ v
    there h =
        sym (pack-unpack u hu)
        ∙ ap uuid_pack (compare_fields_zero (uuid_unpack u) (uuid_unpack v) h)
        ∙ pack-unpack v hv

    back : u ≡ v → is_zero (compare_fields (uuid_unpack u) (uuid_unpack v)) ≡ true
    back p = rw (← p) (compare_fields_refl (uuid_unpack u))

-- The null test of a sixteen-byte uuid holds of the cleared uuid alone.
all_zero : (u : Uuid) (n : ℕ) → length u ≡ n → uuid_is_null u ≡ true → u ≡ replicate n 0
unfolding uuid_is_null
all_zero [] zero h z = refl
all_zero [] (suc n) h z = absurd (omega arith)
all_zero (c ∷ cs) zero h z = absurd (omega arith)
all_zero (c ∷ cs) (suc n) h z = ground (arith, all_zero cs n)

pub cl_uuid_is_null_iff : (u : Uuid) → IsUuid u → (cl_uuid_is_null u ≡ true) ↔ (u ≡ uuid_clear)
unfolding cl_uuid_is_null uuid_clear
cl_uuid_is_null_iff u (h, b) = (all_zero u 16 h, λ p. rw p)

pub cl_uuid_is_null-clear : cl_uuid_is_null uuid_clear ≡ true
unfolding cl_uuid_is_null uuid_clear
cl_uuid_is_null-clear = refl
