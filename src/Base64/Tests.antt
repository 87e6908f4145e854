-- ===== src/Base64/Tests.antt =====
-- The codec on small inputs.
use cluster_glue_import.Prelude.{◌≡◌, ◌≤◌, refl, true, List, ℕ, none, some, arith, codes, length}
use cluster_glue_import.Base64.{
  b64_stringlen, binary_to_base64, base64_to_binary, decode_loop, last_group, too_small,
  char_to_six_bits, b64values, done, fault,
}
use cluster_glue_import.Base64.RoundTrip.{base64_to_binary-binary_to_base64, binary_to_base64_total}
use cluster_glue_import.Base64.Bounds.{base64_to_binary-le, signed_char_fault}

encode_two : binary_to_base64 (codes "Hi") 5 ≡ some (codes "SGk=")
unfolding binary_to_base64
encode_two = refl

no_room : binary_to_base64 (codes "Hi") 4 ≡ none
unfolding binary_to_base64
no_room = refl

decode_two : base64_to_binary true (codes "SGk=") 2 ≡ done (codes "Hi")
unfolding base64_to_binary too_small decode_loop last_group char_to_six_bits b64values
decode_two = refl

base64_to_binary-binary_to_base64_example :
    base64_to_binary true (codes "SGk=") 2 ≡ done (codes "Hi")
base64_to_binary-binary_to_base64_example =
    base64_to_binary-binary_to_base64 true (codes "Hi") (codes "SGk=") 5 2 (omega arith) encode_two
      (omega arith)

binary_to_base64_total_example :
    (text : List ℕ) × (binary_to_base64 (codes "Hi") 5 ≡ some text)
    × (length text ≡ b64_stringlen 2)
binary_to_base64_total_example = binary_to_base64_total (codes "Hi") 5 (omega arith)

base64_to_binary-le_example : length (codes "Hi") ≤ 2
base64_to_binary-le_example = base64_to_binary-le true (codes "SGk=") (codes "Hi") 2 decode_two

signed_char_fault_example : char_to_six_bits true 0xe9 ≡ fault
signed_char_fault_example = signed_char_fault 0xe9 (omega arith) (omega arith)
