-- ===== src/Base64/Table.antt =====
-- The two tables undo one another on six bits.
use cluster_glue_import.Prelude.{
  ℕ, zero, suc, ◌<◌, ◌≡◌, refl, Bool, true, false, ◌+◌, subst, if◌then◌else◌, not, arith, ◌==◌,
  get_or,
}
use cluster_glue_import.Base64.{
  b64chars, equals, b64values, Outcome, done, refused, fault, char_to_six_bits,
}

-- The test holds of the numbers from one on, so many of them.
passes : (ℕ → Bool) → ℕ → ℕ → Bool
passes test from zero = true
passes test from (suc todo) = if test from then passes test (suc from) todo else false

passes-at :
    (test : ℕ → Bool) (from todo k : ℕ)
    → passes test from todo ≡ true
    → k < todo
    → test (k + from) ≡ true
unfolding passes
passes-at test from zero k e h = absurd (omega arith)
passes-at test from (suc todo) zero e h = ground arith
passes-at test from (suc todo) (suc k) e h =
    subst (λ n. test n ≡ true) (omega arith)
      (passes-at test (suc from) todo k (ground (arith, e)) (omega arith))

at_sixbits : (test : ℕ → Bool) (s : ℕ) → passes test 0 64 ≡ true → s < 64 → test s ≡ true
at_sixbits test s e h = subst (λ n. test n ≡ true) (omega arith) (passes-at test 0 64 s e h)

is_done : Outcome ℕ → ℕ → Bool
is_done (done v) n = v == n
is_done refused n = false
is_done fault n = false

is_done_sound : (o : Outcome ℕ) (n : ℕ) → is_done o n ≡ true → o ≡ done n
unfolding is_done
is_done_sound (done v) n h = ground arith
is_done_sound refused n h = cc
is_done_sound fault n h = cc

values_table :
    (signed : Bool)
    → passes (λ s. is_done (char_to_six_bits signed (get_or b64chars s 0)) s) 0 64 ≡ true
unfolding passes is_done char_to_six_bits b64values
values_table true = refl
values_table false = refl

-- Looking a character up gives back the six bits that it stands for.
pub char_to_six_bits-b64chars :
    (signed : Bool) (s : ℕ) → s < 64 → char_to_six_bits signed (get_or b64chars s 0) ≡ done s
char_to_six_bits-b64chars signed s h = is_done_sound _ s (at_sixbits _ s (values_table signed) h)

equals_table : passes (λ s. not (get_or b64chars s 0 == equals)) 0 64 ≡ true
unfolding passes
equals_table = refl

-- None of the characters is the padding.
pub b64chars-ne-equals : (s : ℕ) → s < 64 → (get_or b64chars s 0 == equals) ≡ false
b64chars-ne-equals s h =
    ground (arith, at_sixbits (λ s. not (get_or b64chars s 0 == equals)) s equals_table h)
