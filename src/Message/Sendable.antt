-- ===== src/Message/Sendable.antt =====
-- The messages (cl_msg.c) that come over the wire as they are, and fields of theirs added.
use cluster_glue_import.Prelude.{
  ℕ, zero, suc, ◌<◌, ◌≡◌, refl, ap, ◌∙◌, Bool, true, false, ◌&&◌, not, List, [], ◌∷◌, Option, ◌==◌,
  bytes_eq, length, arith, All,
}
use cluster_glue_import.Message.{
  done, HaMsg, empty, field, Value, string, binary, structure, strings, compressed, uncompressed,
  append_field, sym_to_nl, special_sym, starts_with, msg_start, add_string_field, extend_list,
  addfield, ha_msg_addraw,
}
use cluster_glue_import.Message.Netstring.{has_nul, maxlength, string_list_pack_length}
use cluster_glue_import.Message.Wire.{EncodableValue, Encodable}
use cluster_glue_import.Message.Peel.{no_stop}
use cluster_glue_import.Message.Unpack.{good_item}

-- A name is not empty, does not start with `(` or MSG_START, and holds no `=` and no NUL.
unfoldable pub good_name : List ℕ → Bool
good_name [] = false
good_name (b ∷ name) =
    not (b == b'(') && no_stop (b ∷ name) && not (starts_with msg_start (b ∷ name))

-- No NUL and no special symbol.
unfoldable pub plain : List ℕ → Bool
plain [] = true
plain (c ∷ cs) = not (c == 0) && not (c == special_sym) && plain cs

-- No field of this name stands before.
unfoldable pub fresh : HaMsg → List ℕ → Bool
fresh empty name = true
fresh (field name' v m) name = not (bytes_eq name name') && fresh m name

abbrev pub append_msg : HaMsg → HaMsg → HaMsg
append_msg m empty = m
append_msg m (field name v r) = append_msg (append_field m name v) r

-- The messages that come over the wire as they are: names and strings without the bytes that the
-- format uses, and lists that have strings, under names that no earlier field has. The first
-- message is the fields that stand before.
unfoldable mutual
  pub SendableValue : HaMsg → List ℕ → Value → Type 0
  SendableValue before name (string s) = plain s ≡ true
  SendableValue before name (binary s) = Unit
  SendableValue before name (structure c) = Sendable empty c
  SendableValue before name (strings l) =
      (0 < length l)
      × All (λ x. good_item x ≡ true) l
      × (string_list_pack_length l < maxlength)
      × (fresh before name ≡ true)
  SendableValue before name (compressed s) = Unit
  SendableValue before name (uncompressed c) = Sendable empty c

  pub Sendable : HaMsg → HaMsg → Type 0
  Sendable before empty = Unit
  Sendable before (field name v m) =
      (good_name name ≡ true)
      × SendableValue before name v
      × Sendable (append_field before name v) m

pub plain-has_nul : (s : List ℕ) → plain s ≡ true → has_nul s ≡ false
unfolding plain has_nul
plain-has_nul [] h = refl
plain-has_nul (zero ∷ cs) h = ground arith
plain-has_nul (suc c ∷ cs) h = ground (arith, plain-has_nul cs)

pub plain-sym_to_nl : (s : List ℕ) → plain s ≡ true → sym_to_nl special_sym s ≡ s
unfolding plain sym_to_nl
plain-sym_to_nl [] h = refl
plain-sym_to_nl (zero ∷ cs) h = refl
plain-sym_to_nl (suc c ∷ cs) h = ground (arith, plain-sym_to_nl cs)

mutual
  unfolding EncodableValue Encodable SendableValue Sendable

  SendableValue-Encodable :
      (v : Value) (before : HaMsg) (name : List ℕ) → SendableValue before name v → EncodableValue v
  SendableValue-Encodable (string s) before name h = plain-has_nul s h
  SendableValue-Encodable (binary s) before name h = tt
  SendableValue-Encodable (structure c) before name h = Sendable-Encodable c empty h
  SendableValue-Encodable (strings l) before name (_, _, h, _) = h
  SendableValue-Encodable (compressed s) before name h = tt
  SendableValue-Encodable (uncompressed c) before name h = Sendable-Encodable c empty h

  pub Sendable-Encodable : (m before : HaMsg) → Sendable before m → Encodable m
  Sendable-Encodable empty before h = tt
  Sendable-Encodable (field name v m) before (_, hv, hm) = (
    SendableValue-Encodable v before name hv,
    Sendable-Encodable m (append_field before name v) hm,
  )

extend_list-fresh :
    (m : HaMsg) (name : List ℕ) (l : List (List ℕ))
    → fresh m name ≡ true
    → extend_list m name l ≡ done (append_field m name (strings l))
unfolding fresh extend_list
extend_list-fresh empty name l h = refl
extend_list-fresh (field name' v m) name l h = ground (arith, extend_list-fresh m name l)

module _ (stringtofield : ℕ → List ℕ → Option Value) where
  pub add_string-name :
      (m : HaMsg) (name s : List ℕ)
      → good_name name ≡ true
      → add_string_field stringtofield m name s
        ≡ done (append_field m name (string (sym_to_nl special_sym s)))
  unfolding good_name add_string_field
  add_string-name m [] s h = ground arith
  add_string-name m (b ∷ []) s h = ground arith
  add_string-name m (b ∷ c ∷ []) s h = ground arith
  add_string-name m (b ∷ c ∷ d ∷ name) s h = ground arith

  addfield-Sendable :
      (m : HaMsg) (name : List ℕ) (v : Value)
      → good_name name ≡ true
      → SendableValue m name v
      → addfield stringtofield m name v ≡ done (append_field m name v)
  unfolding SendableValue
  addfield-Sendable m name (string s) h hv =
      add_string-name m name s h
      ∙ ap (λ t. done (append_field m name (string t))) (plain-sym_to_nl s hv)
  addfield-Sendable m name (binary s) h hv = refl
  addfield-Sendable m name (structure c) h hv = refl
  addfield-Sendable m name (strings []) h (lt, _, _, _) = absurd (omega arith)
  addfield-Sendable m name (strings (x ∷ l)) h (_, _, _, new) = extend_list-fresh m name (x ∷ l) new
  addfield-Sendable m name (compressed s) h hv = refl
  addfield-Sendable m name (uncompressed c) h hv = refl

  pub addraw-Sendable :
      (m : HaMsg) (name : List ℕ) (v : Value)
      → good_name name ≡ true
      → SendableValue m name v
      → ha_msg_addraw stringtofield m name v ≡ done (append_field m name v)
  unfolding good_name ha_msg_addraw
  addraw-Sendable m [] v h hv = ground arith
  addraw-Sendable m (b ∷ name) v h hv = ground (arith, addfield-Sendable m (b ∷ name) v h hv)

  -- A string under a good name.
  pub addraw-string :
      (m : HaMsg) (name s : List ℕ)
      → good_name name ≡ true
      → ha_msg_addraw stringtofield m name (string s)
        ≡ done (append_field m name (string (sym_to_nl special_sym s)))
  unfolding good_name ha_msg_addraw
  addraw-string m [] s h = ground arith
  addraw-string m (b ∷ name) s h = ground (arith, add_string-name m (b ∷ name) s h)
