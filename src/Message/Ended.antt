-- ===== src/Message/Ended.antt =====
-- The decoder of cl_netstring.c ends: the fuel of its loop is enough.
mod Pieces
mod Values
use mathlib.Core.Bool.{true≢false}
use cluster_glue_import.Prelude.{
  ℕ, zero, suc, ◌+◌, ◌-◌, ◌*◌, ◌^◌, ◌<◌, ◌≤◌, ◌≡◌, ◌≢◌, refl, ap, ◌∙◌, sym, subst, Bool, true,
  false, ◌&&◌, ◌||◌, not, inl, inr, List, [], ◌∷◌, ◌++◌, append_assoc, Option, some, none, leb, ltb,
  ◌==◌, if◌then◌else◌, bytes_eq, length, take, drop, ℤ, pos, negsuc, sub_ℕ, arith, Bool-cases,
}
use cluster_glue_import.Message.{
  Result, done, refused, fault, unfinished, ◌>>=◌, HaMsg, empty, field, Value, string, binary,
  structure, strings, compressed, uncompressed, ha_msg_addraw, add_string_field, add_typed_field,
  append_field, starts_with, msg_start, addfield, extend_list, add_list_field,
}
use cluster_glue_import.Message.Netstring.{colon, comma, start_netstring, end_netstring}
use cluster_glue_import.Message.Parse.{
  Number, number_of, Piece, piece_of, Span, span_of, digit, add_digit, parse_loop, cl_parse_int,
  peel_text, skip_to_colon, peel_number, peel_netstring, netstring2string, with_length,
  netstringtofield, name_span, strncmp_eq, add_pair, process_netstring_nvpair, start_fields,
  add_piece, fields_loop, netstring2msg,
}
use cluster_glue_import.Message.Scan.{
  copy, is_space, is_digit, scan_digits, scan_number, to_int, in_int, negative, sscanf_int,
  c_string, after_colon, unpack_item, unpack_len, unpack_loop, string_list_unpack, netstring2list,
}
use cluster_glue_import.Message.Ends.{
  Ends, Ended, Ends-bind, Ends-if, Ends-elim, Ends-option, Ended-map,
}
use cluster_glue_import.Message.Ended.Pieces.{PieceLt, length-drop, peel_netstring-Ends}
use cluster_glue_import.Message.Ended.Values.{field-Ended}

abbrev SpanLe : ℕ → Span → Type 0
SpanLe bound (span_of name rest) = length rest ≤ bound

name_span-Ends : (s : List ℕ) (bound : ℕ) → length s ≤ bound → Ends (SpanLe bound) (name_span s)
unfolding name_span
name_span-Ends [] bound h = tt
name_span-Ends (c ∷ cs) bound h =
    Ends-elim (SpanLe bound) (c == b'=' || c == 0) _ _ h
      (go (name_span cs) (name_span-Ends cs bound (omega arith)))
  where
    go :
        (r : Result Span)
        → Ends (SpanLe bound) r
        → Ends (SpanLe bound) (elim r [
          | done sp ↦ elim sp [ span_of name rest ↦ done (span_of (c ∷ name) rest) ]
          | refused ↦ refused
          | fault ↦ fault
          | unfinished ↦ unfinished
        ])
    go (done (span_of name rest)) le = le
    go refused le = tt
    go fault le = tt
    go unfinished le = le

strncmp_eq-Ended : (prefix s : List ℕ) → Ended (strncmp_eq prefix s)
unfolding strncmp_eq
strncmp_eq-Ended [] s = tt
strncmp_eq-Ended (p ∷ ps) [] = tt
strncmp_eq-Ended (p ∷ ps) (c ∷ cs) = Ends-elim (λ _. Unit) (p == c) _ _ (strncmp_eq-Ended ps cs) tt

module _ (stringtofield : ℕ → List ℕ → Option Value) where
  add_typed-Ended :
      (m : HaMsg) (c : ℕ) (name s : List ℕ) → Ended (add_typed_field stringtofield m c name s)
  unfolding add_typed_field
  add_typed-Ended m c name s =
      Ends-if (λ _. Unit) _ refused
        (elim (stringtofield (c - b'0') s) [
          | none ↦ refused
          | some v ↦ done (append_field m name v)
        ])
        tt (Ends-option (λ _. Unit) (stringtofield (c - b'0') s) refused _ tt (λ v. tt))

  add_string-Ended : (m : HaMsg) (name s : List ℕ) → Ended (add_string_field stringtofield m name s)
  unfolding add_string_field
  add_string-Ended m [] s = tt
  add_string-Ended m (b ∷ []) s = Ends-if (λ _. Unit) (b == b'(') fault _ tt tt
  add_string-Ended m (b ∷ c ∷ []) s = Ends-if (λ _. Unit) (b == b'(') refused _ tt tt
  add_string-Ended m (b ∷ c ∷ d ∷ name) s =
      Ends-if (λ _. Unit) (b == b'(') _ _
        (Ends-if (λ _. Unit) (d == b')') _ refused (add_typed-Ended m c name s) tt) tt

  extend_list-Ended : (m : HaMsg) (name : List ℕ) (l : List (List ℕ)) → Ended (extend_list m name l)
  unfolding extend_list
  extend_list-Ended empty name l = tt
  extend_list-Ended (field name' v m) name l =
      Ends-elim (λ _. Unit) (bytes_eq name name') _ _ (merged v)
        (Ended-map (extend_list m name l) (field name' v) (extend_list-Ended m name l))
    where
      merged :
          (v : Value)
          → Ended (elim v [ strings l' ↦ done (field name' (strings (l' ++ l)) m) | _ ↦ refused ])
      merged (string s) = tt
      merged (binary s) = tt
      merged (structure c) = tt
      merged (strings l') = tt
      merged (compressed s) = tt
      merged (uncompressed c) = tt

  addfield-Ended : (m : HaMsg) (name : List ℕ) (v : Value) → Ended (addfield stringtofield m name v)
  addfield-Ended m name (string s) = add_string-Ended m name s
  addfield-Ended m name (binary s) = tt
  addfield-Ended m name (structure c) = tt
  addfield-Ended m name (strings []) = tt
  addfield-Ended m name (strings (x ∷ l)) = extend_list-Ended m name (x ∷ l)
  addfield-Ended m name (compressed s) = tt
  addfield-Ended m name (uncompressed c) = tt

  addraw-Ended :
      (m : HaMsg) (name : List ℕ) (v : Value) → Ended (ha_msg_addraw stringtofield m name v)
  unfolding ha_msg_addraw
  addraw-Ended m name v =
      Ends-if (λ _. Unit) (length name == 0) refused _ tt
        (Ends-if (λ _. Unit) (starts_with msg_start name) refused _ tt (addfield-Ended m name v))

module _ (signed : Bool) (stringtofield : ℕ → List ℕ → Option Value) where
  add_pair-Ended :
      (nested : List ℕ → ℕ → Result HaMsg) (m : HaMsg) (type nvlen bound : ℕ) (sp : Span)
      → ((s : List ℕ) (k : ℕ) → length s ≤ bound → Ended (nested s k))
      → SpanLe bound sp
      → Ended (add_pair signed stringtofield nested m type nvlen sp)
  add_pair-Ended nested m type nvlen bound (span_of [] rest) h le = tt
  add_pair-Ended nested m type nvlen bound (span_of (b ∷ name) []) h le = tt
  add_pair-Ended nested m type nvlen bound (span_of (b ∷ name) (c ∷ s)) h le =
      let n = sub_ℕ nvlen (length (b ∷ name) + 4) in
      Ends-if (λ _. Unit) (not (c == b'=')) refused _ tt
        (Ends-bind (λ _. Unit) (λ _. Unit) (netstringtofield nested type s n) _
          (field-Ended nested type s n (λ k. h s k (omega arith)))
          (λ v _. addraw-Ended stringtofield m (b ∷ name) v))

  nvpair-Ended :
      (nested : List ℕ → ℕ → Result HaMsg) (m : HaMsg) (s : List ℕ) (nvlen bound : ℕ)
      → ((s : List ℕ) (k : ℕ) → length s ≤ bound → Ended (nested s k))
      → length s ≤ bound
      → Ended (process_netstring_nvpair signed stringtofield nested m s nvlen)
  unfolding process_netstring_nvpair
  nvpair-Ended nested m [] nvlen bound h le = tt
  nvpair-Ended nested m (p ∷ []) nvlen bound h le = tt
  nvpair-Ended nested m (p ∷ t ∷ []) nvlen bound h le = tt
  nvpair-Ended nested m (p ∷ t ∷ q ∷ s) nvlen bound h le =
      Ends-if (λ _. Unit) (not (p == b'(' && is_digit t && q == b')')) fault _ tt
        (Ends-bind (SpanLe bound) (λ _. Unit) (name_span s) _ (name_span-Ends s bound (omega arith))
          (λ sp le'. add_pair-Ended nested m (t - b'0') nvlen bound sp h le'))

  start_fields-Ended :
      (fields : HaMsg → List ℕ → ℕ → Result HaMsg) (s : List ℕ) (n : ℕ)
      → ((m : HaMsg) (s' : List ℕ) (k : ℕ) → length s' ≤ length s → Ended (fields m s' k))
      → Ended (start_fields signed stringtofield fields s n)
  start_fields-Ended fields s n h =
      Ends-bind (λ _. Unit) (λ _. Unit) (strncmp_eq start_netstring s) _
        (strncmp_eq-Ended start_netstring s)
        (λ ok _.
          Ends-elim (λ _. Unit) ok _ refused (h empty (drop 4 s) (n - 4) (length-drop 4 s)) tt)

  add_piece-Ended :
      (fields : HaMsg → List ℕ → ℕ → Result HaMsg) (m : HaMsg) (bound : ℕ) (piece : Piece)
      → ((m' : HaMsg) (s : List ℕ) (k : ℕ) → length s < bound → Ended (fields m' s k))
      → PieceLt bound piece
      → Ended (add_piece signed stringtofield fields m piece)
  add_piece-Ended fields m bound (piece_of len text after left) h (lt, lt') =
      Ends-bind (λ _. Unit) (λ _. Unit)
        (process_netstring_nvpair signed stringtofield (start_fields signed stringtofield fields) m
          text len)
        _
        (nvpair-Ended (start_fields signed stringtofield fields) m text len (length text)
          (λ s k le. start_fields-Ended fields s k (λ m' s' k' le'. h m' s' k' (omega arith)))
          (omega arith))
        (λ m' _. h m' after left lt')

  fields_loop-Ended :
      (fuel : ℕ) (m : HaMsg) (s : List ℕ) (n : ℕ)
      → length s < fuel
      → Ended (fields_loop signed stringtofield fuel m s n)
  unfolding fields_loop
  fields_loop-Ended zero m s n h = absurd (omega arith)
  fields_loop-Ended (suc fuel) m s n h =
      Ends-elim (λ _. Unit) (n == 0) _ _ tt
        (Ends-bind (λ _. Unit) (λ _. Unit) (strncmp_eq end_netstring s) _
          (strncmp_eq-Ended end_netstring s)
          (λ ended _.
            Ends-elim (λ _. Unit) ended _ _ tt
              (Ends-bind (PieceLt (length s)) (λ _. Unit) (peel_netstring signed s n) _
                (peel_netstring-Ends signed s n)
                (λ piece lt.
                  add_piece-Ended (fields_loop signed stringtofield fuel) m (length s) piece
                    (λ m' s' k lt'. fields_loop-Ended fuel m' s' k (omega arith)) lt))))

  Ended-ne : (r : Result HaMsg) → Ended r → r ≢ unfinished
  Ended-ne r h e = absurd (true≢false (subst Ended e h))

  -- `netstring2msg` ends on all bytes, whatever length it is given: every round of its loop, and
  -- every message inside of a message, starts on fewer bytes.
  pub netstring2msg_total :
      (s : List ℕ) (n : ℕ) → netstring2msg signed stringtofield s n ≢ unfinished
  netstring2msg_total s n = Ended-ne (netstring2msg signed stringtofield s n) (
      start_fields-Ended (fields_loop signed stringtofield (suc (length s))) s n
        (λ m s' k le. fields_loop-Ended (suc (length s)) m s' k (omega arith)))
