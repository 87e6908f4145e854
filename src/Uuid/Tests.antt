-- ===== src/Uuid/Tests.antt =====
-- The laws of uuids at concrete bytes.
use cluster_glue_import.Prelude.{◌≡◌, ◌↔◌, refl, true, arith, ◌∷◌, []}
use cluster_glue_import.Uuid.{
  Uuid, Fields, uuid_pack, uuid_unpack, uuid_clear, cl_uuid_g_equal, cl_uuid_is_null,
}
use cluster_glue_import.Uuid.Laws.{unpack-pack, cl_uuid_g_equal_iff, cl_uuid_is_null_iff}

abbrev fields : Fields
fields = record {
  time_low = 0x01020304;
  time_mid = 0x0506;
  time_hi_and_version = 0x0708;
  clock_seq = 0x090a;
  node = 11 ∷ 12 ∷ 13 ∷ 14 ∷ 15 ∷ 16 ∷ [];
}

abbrev bytes : Uuid
bytes = 1 ∷ 2 ∷ 3 ∷ 4 ∷ 5 ∷ 6 ∷ 7 ∷ 8 ∷ 9 ∷ 10 ∷ 11 ∷ 12 ∷ 13 ∷ 14 ∷ 15 ∷ 16 ∷ []

pack_fields : uuid_pack fields ≡ bytes
unfolding uuid_pack
pack_fields = refl

unpack-pack_example : uuid_unpack (uuid_pack fields) ≡ fields
unpack-pack_example = unpack-pack fields (omega arith)

cl_uuid_g_equal_iff_example : (cl_uuid_g_equal bytes bytes ≡ true) ↔ (bytes ≡ bytes)
cl_uuid_g_equal_iff_example = cl_uuid_g_equal_iff bytes bytes (omega arith) (omega arith)

cl_uuid_is_null_iff_example : (cl_uuid_is_null bytes ≡ true) ↔ (bytes ≡ uuid_clear)
cl_uuid_is_null_iff_example = cl_uuid_is_null_iff bytes (omega arith)
