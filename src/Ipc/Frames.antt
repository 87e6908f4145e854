-- ===== src/Ipc/Frames.antt =====
-- The bytes of messages on the wire, and what the receive buffers of lib/clplumbing/ocf_ipc.c read
-- in them.
use cluster_glue_import.Prelude.{
  ℕ, zero, suc, ◌+◌, ◌<◌, ◌≤◌, ◌≡◌, refl, ap, ◌∙◌, sym, List, [], ◌∷◌, ◌++◌, length, take, drop,
  get_or, pos, arith,
}
use cluster_glue_import.Ipc.{maxmsg, headmagic, msgpad, head_bytes, msg_len_of, magic_of}

-- A message on the wire.
abbrev pub frame : List ℕ → List ℕ
frame m = head_bytes (length m) ++ m

unfoldable pub frames : List (List ℕ) → List ℕ
frames [] = []
frames (m ∷ ms) = frame m ++ frames ms

abbrev pub Small : List ℕ → Type 0
Small m = length m ≤ maxmsg

get_or-append : (xs ys : List ℕ) (i : ℕ) → i < length xs → get_or (xs ++ ys) i 0 ≡ get_or xs i 0
get_or-append [] ys i h = absurd (omega arith)
get_or-append (x ∷ xs) ys zero h = refl
get_or-append (x ∷ xs) ys (suc i) h = get_or-append xs ys i (omega arith)

-- A whole header is read whatever comes behind it.
msg_len_of-append : (xs ys : List ℕ) → msgpad ≤ length xs → msg_len_of (xs ++ ys) ≡ msg_len_of xs
unfolding msg_len_of
msg_len_of-append xs ys h = rw (
  get_or-append xs ys 0 (omega arith),
  get_or-append xs ys 1 (omega arith),
  get_or-append xs ys 2 (omega arith),
  get_or-append xs ys 3 (omega arith),
)

magic_of-append : (xs ys : List ℕ) → msgpad ≤ length xs → magic_of (xs ++ ys) ≡ magic_of xs
unfolding magic_of
magic_of-append xs ys h = rw (
  get_or-append xs ys 4 (omega arith),
  get_or-append xs ys 5 (omega arith),
  get_or-append xs ys 6 (omega arith),
  get_or-append xs ys 7 (omega arith),
)

msg_len_of-frame : (n : ℕ) (s : List ℕ) → n ≤ maxmsg → msg_len_of (head_bytes n ++ s) ≡ pos n
unfolding msg_len_of
msg_len_of-frame n s h = ground arith

magic_of-frame : (n : ℕ) (s : List ℕ) → magic_of (head_bytes n ++ s) ≡ headmagic
unfolding magic_of
magic_of-frame n s = refl

-- The header of the first message of a stream, once it is there.
module _ (p future tail m : List ℕ) (e : p ++ future ≡ frame m ++ tail)
    (h : msgpad ≤ length p) where
  pub first_msg_len : Small m → msg_len_of p ≡ pos (length m)
  first_msg_len small =
      sym (msg_len_of-append p future h) ∙ ap msg_len_of e ∙ msg_len_of-frame (length m) _ small

  pub first_magic : magic_of p ≡ headmagic
  unfolding magic_of
  first_magic = sym (magic_of-append p future h) ∙ ap magic_of e

-- A front of a list that is longer than another front of it.
pub cut_front {ℓ} :
    {A : Type ℓ} (us vs xs ys : List A)
    → xs ++ ys ≡ us ++ vs
    → length us ≤ length xs
    → (take (length us) xs ≡ us) × (drop (length us) xs ++ ys ≡ vs)
cut_front [] vs xs ys e h = (refl, e)
cut_front (u ∷ us) vs [] ys e h = absurd (omega arith)
cut_front (u ∷ us) vs (x ∷ xs) ys e h =
    let (front, rest) = cut_front us vs xs ys (cc) (omega arith) in (cc, rest)

pub length-drop {ℓ} :
    {A : Type ℓ} (n : ℕ) (xs : List A) → n ≤ length xs → length (drop n xs) + n ≡ length xs
length-drop zero xs h = omega arith
length-drop (suc n) [] h = absurd (omega arith)
length-drop (suc n) (x ∷ xs) h = omega (arith, length-drop n xs)

-- The first message of a stream, once the whole of it is there.
pub whole_message :
    (p future tail m : List ℕ)
    → p ++ future ≡ frame m ++ tail
    → msgpad + length m ≤ length p
    → (take (length m) (drop msgpad p) ≡ m) × (drop (length m) (drop msgpad p) ++ future ≡ tail)
whole_message p future tail m e h =
    let (_, body) = cut_front (head_bytes (length m)) (m ++ tail) p future e (omega arith) in
    cut_front m tail (drop msgpad p) future body (omega (arith, length-drop msgpad p (omega arith)))
