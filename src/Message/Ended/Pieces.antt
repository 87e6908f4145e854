-- ===== src/Message/Ended/Pieces.antt =====
-- `peel_netstring` of cl_netstring.c ends, and what it takes off is shorter than the whole.
use cluster_glue_import.Prelude.{
  ℕ, zero, suc, ◌+◌, ◌-◌, ◌<◌, ◌≤◌, Bool, List, [], ◌∷◌, leb, ◌==◌, if◌then◌else◌, length, drop, ℤ,
  pos, negsuc, arith,
}
use cluster_glue_import.Message.{done, refused, fault}
use cluster_glue_import.Message.Netstring.{colon, comma}
use cluster_glue_import.Message.Parse.{
  Number, number_of, Piece, piece_of, digit, add_digit, parse_loop, cl_parse_int, peel_text,
  skip_to_colon, peel_number, peel_netstring,
}
use cluster_glue_import.Message.Ends.{Ends, Ended, Ends-bind, Ends-if, Ends-elim, Ends-option}

abbrev RestLe : ℕ → Number → Type 0
RestLe bound (number_of v offset rest left) = length rest ≤ bound

abbrev pub PieceLt : ℕ → Piece → Type 0
PieceLt bound (piece_of len text after left) = (length text < bound) × (length after < bound)

pub length-drop {ℓ} : {A : Type ℓ} (n : ℕ) (xs : List A) → length (drop n xs) ≤ length xs
length-drop zero xs = omega arith
length-drop (suc n) [] = omega arith
length-drop (suc n) (x ∷ xs) = omega (arith, length-drop n xs)

add_digit-Ended : (len ch : ℤ) → Ended (add_digit len ch)
add_digit-Ended len ch = Ends-if (λ _. Unit) (_) (done _) fault tt tt

parse_loop-Ends :
    (signed : Bool) (s : List ℕ) (n : ℕ) (len : ℤ) (offset bound : ℕ)
    → length s ≤ bound
    → Ends (RestLe bound) (parse_loop signed s n len offset)
unfolding parse_loop
parse_loop-Ends signed [] zero len offset bound h = h
parse_loop-Ends signed (c ∷ cs) zero len offset bound h = h
parse_loop-Ends signed [] (suc n) len offset bound h = tt
parse_loop-Ends signed (c ∷ cs) (suc n) len offset bound h =
    Ends-option (RestLe bound) (digit signed c) _ _ h (λ ch.
      Ends-bind (λ _. Unit) (RestLe bound) (add_digit len ch) _ (add_digit-Ended len ch)
        (λ len' _. parse_loop-Ends signed cs n len' (offset + 1) bound (omega arith)))

peel_text-Ends :
    (s : List ℕ) (n len bound : ℕ) → length s < bound → Ends (PieceLt bound) (peel_text s n len)
unfolding peel_text
peel_text-Ends s n len bound h =
    Ends-if (PieceLt bound) (leb n len) refused _ tt (go (drop len s) (length-drop len s))
  where
    go :
        (l : List ℕ)
        → length l ≤ length s
        → Ends (PieceLt bound) (elim l [
          | [] ↦ fault
          | c ∷ after ↦ if c == comma then done (piece_of len s after (n - len - 1)) else refused
        ])
    go [] le = tt
    go (c ∷ after) le = Ends-if (PieceLt bound) (c == comma) _ refused (h, omega arith) tt

skip_to_colon-Ends :
    (s : List ℕ) (n len bound : ℕ) → length s ≤ bound → Ends (PieceLt bound) (skip_to_colon s n len)
unfolding skip_to_colon
skip_to_colon-Ends [] n len bound h = tt
skip_to_colon-Ends (c ∷ cs) zero len bound h = tt
skip_to_colon-Ends (c ∷ cs) (suc n) len bound h =
    Ends-elim (PieceLt bound) (c == colon) _ _ (peel_text-Ends cs n len bound (omega arith))
      (skip_to_colon-Ends cs n len bound (omega arith))

-- The text behind a length and the bytes behind the comma are shorter than what they stand in.
pub peel_netstring-Ends :
    (signed : Bool) (s : List ℕ) (n : ℕ) → Ends (PieceLt (length s)) (peel_netstring signed s n)
unfolding peel_netstring
peel_netstring-Ends signed s n =
    let bound = length s in
    Ends-if (PieceLt bound) (n == 0) refused _ tt (
      Ends-bind (RestLe bound) (PieceLt bound) (cl_parse_int signed s n) peel_number
        (parse_loop-Ends signed s n (pos 0) 0 bound (omega arith)) number)
  where
    number : (x : Number) → RestLe (length s) x → Ends (PieceLt (length s)) (peel_number x)
    number (number_of (negsuc _) offset rest left) le = tt
    number (number_of (pos len) zero rest left) le = tt
    number (number_of (pos len) (suc offset) rest left) le =
        skip_to_colon-Ends rest left len (length s) le
