-- ===== src/Message/Ended/Values.antt =====
-- The conversions of single values (cl_msg_types.c) end.
use cluster_glue_import.Prelude.{
  ℕ, zero, suc, ◌+◌, ◌-◌, ◌*◌, ◌<◌, ◌≤◌, Bool, true, false, ◌||◌, not, List, [], ◌∷◌, ◌++◌, Option,
  some, none, leb, ◌==◌, if◌then◌else◌, length, drop, ℤ, pos, negsuc, arith,
}
use cluster_glue_import.Message.{
  Result, done, refused, fault, HaMsg, Value, string, binary, structure, strings, compressed,
  uncompressed,
}
use cluster_glue_import.Message.Netstring.{colon}
use cluster_glue_import.Message.Parse.{netstring2string, with_length, netstringtofield}
use cluster_glue_import.Message.Scan.{
  copy, is_space, is_digit, scan_digits, scan_number, to_int, in_int, negative, sscanf_int,
  c_string, after_colon, unpack_item, unpack_len, unpack_loop, string_list_unpack, netstring2list,
}
use cluster_glue_import.Message.Ends.{Ends, Ended, Ends-bind, Ends-if, Ends-elim, Ended-map}
use cluster_glue_import.Message.Ended.Pieces.{length-drop}

copy-Ended : (n : ℕ) (s : List ℕ) → Ended (copy n s)
copy-Ended n s = Ends-if (λ _. Unit) (leb n (length s)) _ fault tt tt

scan_digits-Ended : (s : List ℕ) (n : ℕ) → Ended (scan_digits s n)
unfolding scan_digits
scan_digits-Ended [] n = tt
scan_digits-Ended (c ∷ cs) n =
    Ends-elim (λ _. Unit) (is_digit c) _ _ (scan_digits-Ended cs (n * 10 + (c - b'0'))) tt

to_int-Ended : (n : ℤ) → Ended (to_int n)
to_int-Ended n = Ends-if (λ _. Unit) (in_int n) (done (some n)) fault tt tt

scan_number-Ended : (minus : Bool) (s : List ℕ) → Ended (scan_number minus s)
scan_number-Ended minus [] = tt
scan_number-Ended minus (c ∷ cs) =
    Ends-if (λ _. Unit) (not (is_digit c)) _ _ tt
      (Ends-bind (λ _. Unit) (λ _. Unit) (scan_digits (c ∷ cs) 0) _ (scan_digits-Ended (c ∷ cs) 0)
        (λ n _. to_int-Ended (if minus then negative n else pos n)))

sscanf_int-Ended : (s : List ℕ) → Ended (sscanf_int s)
unfolding sscanf_int
sscanf_int-Ended [] = tt
sscanf_int-Ended (c ∷ cs) =
    Ends-elim (λ _. Unit) (is_space c) _ _ (sscanf_int-Ended cs)
      (Ends-if (λ _. Unit) (c == b'-') _ _ (scan_number-Ended true cs)
        (Ends-if (λ _. Unit) (c == b'+') _ _ (scan_number-Ended false cs)
          (scan_number-Ended false (c ∷ cs))))

abbrev OptionLt : ℕ → Option (List ℕ) → Type 0
OptionLt bound none = Unit
OptionLt bound (some s) = length s < bound

after_colon-Ends :
    (s : List ℕ) (bound : ℕ) → length s ≤ bound → Ends (OptionLt bound) (after_colon s)
unfolding after_colon
after_colon-Ends [] bound h = tt
after_colon-Ends (c ∷ cs) bound h =
    Ends-elim (OptionLt bound) (c == colon) _ _ (omega arith)
      (Ends-if (OptionLt bound) (c == 0) _ _ tt (after_colon-Ends cs bound (omega arith)))

unpack_item-Ended :
    (len bound : ℕ) (s : List ℕ) (next : List ℕ → List ℕ → Result (List (List ℕ)))
    → length s ≤ bound
    → ((item after : List ℕ) → length after < bound → Ended (next item after))
    → Ended (unpack_item len s next)
unpack_item-Ended len bound s next h f =
    Ends-bind (λ _. Unit) (λ _. Unit) (copy len s) _ (copy-Ended len s)
      (λ item _. go item (drop len s) (length-drop len s))
  where
    go :
        (item l : List ℕ)
        → length l ≤ length s
        → Ended (elim l [ [] ↦ fault | c ∷ after ↦ next (c_string item) after ])
    go item [] le = tt
    go item (c ∷ after) le = f (c_string item) after (omega arith)

unpack_len-Ended :
    (len : Option ℤ) (s : List ℕ) (list : List (List ℕ))
    (next : List ℕ → List ℕ → Result (List (List ℕ)))
    → ((item after : List ℕ) → length after < length s → Ended (next item after))
    → Ended (unpack_len len s list next)
unpack_len-Ended none s list next f = tt
unpack_len-Ended (some (negsuc _)) s list next f = tt
unpack_len-Ended (some (pos zero)) s list next f = tt
unpack_len-Ended (some (pos (suc l))) s list next f =
    Ends-bind (OptionLt (length s)) (λ _. Unit) (after_colon s) _
      (after_colon-Ends s (length s) (omega arith)) go
  where
    go :
        (rest : Option (List ℕ))
        → OptionLt (length s) rest
        → Ended (elim rest [ none ↦ done list | some s' ↦ unpack_item (suc l) s' next ])
    go none h = tt
    go (some s') h = unpack_item-Ended (suc l) (length s) s' next (omega arith) f

unpack_loop-Ended :
    (fuel : ℕ) (s : List ℕ) (total n : ℕ) (list : List (List ℕ))
    → length s < fuel
    → Ended (unpack_loop fuel s total n list)
unfolding unpack_loop
unpack_loop-Ended zero s total n list h = absurd (omega arith)
unpack_loop-Ended (suc fuel) [] total n list h = tt
unpack_loop-Ended (suc fuel) (c ∷ cs) total n list h =
    Ends-if (λ _. Unit) (c == 0 || leb (n + length (c ∷ cs)) total) _ _ tt
      (Ends-bind (λ _. Unit) (λ _. Unit) (sscanf_int (c ∷ cs)) _ (sscanf_int-Ended (c ∷ cs))
        (λ len _. unpack_len-Ended len (c ∷ cs) list _ (λ item after lt.
          unpack_loop-Ended fuel after total n (list ++ item ∷ []) (omega arith))))

-- `string_list_unpack` ends on all bytes, whatever length it is given.
pub string_list_unpack-Ended : (s : List ℕ) (n : ℕ) → Ended (string_list_unpack s n)
string_list_unpack-Ended s n = unpack_loop-Ended (suc (length s)) s (length s) n [] (omega arith)

netstring2list-Ended : (s : List ℕ) (n : ℕ) → Ended (netstring2list s n)
netstring2list-Ended s n =
    Ends-bind (λ _. Unit) (λ _. Unit) (string_list_unpack s n) _ (string_list_unpack-Ended s n)
      (λ list _. go list)
  where
    go :
        (list : List (List ℕ)) → Ended (elim list [ [] ↦ refused | x ∷ l ↦ done (strings (x ∷ l)) ])
    go [] = tt
    go (x ∷ l) = tt

netstring2string-Ended : (s : List ℕ) (n : ℤ) → Ended (netstring2string s n)
netstring2string-Ended s (pos n) = copy-Ended n s
netstring2string-Ended s (negsuc zero) = tt
netstring2string-Ended s (negsuc (suc k)) = tt

with_length-Ended :
    (n : ℤ) (f : ℕ → Result Value) → ((k : ℕ) → Ended (f k)) → Ended (with_length n f)
with_length-Ended (pos n) f h = h n
with_length-Ended (negsuc k) f h = tt

pub field-Ended :
    (nested : List ℕ → ℕ → Result HaMsg) (type : ℕ) (s : List ℕ) (n : ℤ)
    → ((k : ℕ) → Ended (nested s k))
    → Ended (netstringtofield nested type s n)
field-Ended nested zero s n h = Ended-map (netstring2string s n) string (netstring2string-Ended s n)
field-Ended nested (suc zero) s n h =
    Ended-map (netstring2string s n) binary (netstring2string-Ended s n)
field-Ended nested (suc (suc zero)) s n h =
    with_length-Ended n _ (λ k. Ended-map (nested s k) structure (h k))
field-Ended nested (suc (suc (suc zero))) s n h = with_length-Ended n _ (netstring2list-Ended s)
field-Ended nested (suc (suc (suc (suc zero)))) s n h =
    Ended-map (netstring2string s n) compressed (netstring2string-Ended s n)
field-Ended nested (suc (suc (suc (suc (suc zero))))) s n h =
    with_length-Ended n _ (λ k. Ended-map (nested s k) uncompressed (h k))
field-Ended nested (suc (suc (suc (suc (suc (suc _)))))) s n h = tt
