-- ===== src/Lrmd/Named.antt =====
-- Messages whose fields with the names that the daemon writes are strings: what cl_msg.c does to
-- them leaves them so.
use cluster_glue_import.Prelude.{
  ℕ, ◌≡◌, refl, subst, ap, ◌∙◌, Bool, true, false, ◌&&◌, ◌||◌, not, List, [], ◌∷◌, some, String,
  ◌==◌, codes, bytes_eq, bytes_eq_iff, ==_iff, if◌then◌else◌, inl, inr, Bool-cases, arith,
}
use cluster_glue_import.Message.{
  HaMsg, empty, field, Value, string, type_of, ft_string, append_field, cl_get_value, set_value,
  cl_msg_remove,
}
use cluster_glue_import.Message.Ends.{Ends, Ends-bind}
use cluster_glue_import.Message.Sendable.{good_name}
use cluster_glue_import.Message.Peel.{no_stop}
use cluster_glue_import.Lrmd.Messages.{name_eq, is_one_of, is_written, written_names}

pub bytes_eq-codes : (n k : String) → bytes_eq (codes n) (codes k) ≡ name_eq n k
unfolding bytes_eq
bytes_eq-codes String.[] String.[] = refl
bytes_eq-codes String.[] (String.◌∷◌ c k) = refl
bytes_eq-codes (String.◌∷◌ b n) String.[] = refl
bytes_eq-codes (String.◌∷◌ b n) (String.◌∷◌ c k) = ground (arith, bytes_eq-codes n k)

abbrev pub is_code_of : List String → List ℕ → Bool
is_code_of [] b = false
is_code_of (o ∷ os) b = bytes_eq (codes o) b || is_code_of os b

is_code_of-codes : (os : List String) (n : String) → is_code_of os (codes n) ≡ is_one_of os n
is_code_of-codes [] n = refl
is_code_of-codes (o ∷ os) n = rw (bytes_eq-codes o n, is_code_of-codes os n)

pub written_code : (n : String) → is_written n ≡ true → is_code_of written_names (codes n) ≡ true
written_code n h = is_code_of-codes written_names n ∙ h

-- A field with a name that the daemon writes is a string.
unfoldable pub fits_name : List ℕ → Value → Bool
fits_name name v = not (is_code_of written_names name) || type_of v == ft_string

unfoldable pub strings_named : HaMsg → Bool
strings_named empty = true
strings_named (field name v m) = fits_name name v && strings_named m

string-fits : (name s : List ℕ) → fits_name name (string s) ≡ true
unfolding fits_name
string-fits name s = elim (Bool-cases (is_code_of written_names name)) [
  | inl e ↦ rw e refl
  | inr e ↦ rw e refl
]

fits-string :
    (name : List ℕ) (v : Value)
    → fits_name name v ≡ true
    → is_code_of written_names name ≡ true
    → (type_of v == ft_string) ≡ true
unfolding fits_name
fits-string name v h w = subst (λ b. (not b || type_of v == ft_string) ≡ true) w h

both : (a b : Bool) → (a && b) ≡ true → (a ≡ true) × (b ≡ true)
both true b h = (refl, h)
both false b h = absurd cc

and : {a b : Bool} → a ≡ true → b ≡ true → (a && b) ≡ true
and h h' = rw (h, h') refl

some_inj : {v v' : Value} → some v ≡ some v' → v ≡ v'
some_inj e = cc

-- What is found under a name that the daemon writes is a string.
pub found-string :
    (m : HaMsg) (name : List ℕ) (v : Value)
    → strings_named m ≡ true
    → is_code_of written_names name ≡ true
    → cl_get_value m name ≡ some v
    → type_of v ≡ ft_string
unfolding strings_named cl_get_value
found-string empty name v h w e = absurd cc
found-string (field name' v' m) name v h w e =
    let (fits, rest) = both (fits_name name' v') (strings_named m) h in
    elim (Bool-cases (bytes_eq name name')) [
      | inl eq ↦
          let w' =
            subst (λ u. is_code_of written_names u ≡ true) ((bytes_eq_iff name name').0 eq) w in
          let same : some v' ≡ some v =
            subst (λ b. (if b then some v' else cl_get_value m name) ≡ some v) eq e in
          let t = (==_iff (type_of v') ft_string).0 (fits-string name' v' fits w') in
          subst (λ (u : Value). type_of u ≡ ft_string) (some_inj same) t
      | inr ne ↦
          found-string m name v rest w
            (subst (λ b. (if b then some v' else cl_get_value m name) ≡ some v) ne e)
    ]

pub set-named :
    (m : HaMsg) (name s : List ℕ)
    → strings_named m ≡ true
    → strings_named (set_value m name (string s)) ≡ true
unfolding strings_named set_value
set-named empty name s h = refl
set-named (field name' v' m) name s h =
    let (fits, rest) = both (fits_name name' v') (strings_named m) h in
    elim (Bool-cases (bytes_eq name name')) [
      | inl eq ↦ rw eq (and (string-fits name' s) rest)
      | inr ne ↦ rw ne (and fits (set-named m name s rest))
    ]

pub append-named :
    (m : HaMsg) (name s : List ℕ)
    → strings_named m ≡ true
    → strings_named (append_field m name (string s)) ≡ true
unfolding strings_named
append-named empty name s h = and (string-fits name s) refl
append-named (field name' v' m) name s h =
    let (fits, rest) = both (fits_name name' v') (strings_named m) h in
    and fits (append-named m name s rest)

-- What is left after a removal.
abbrev pub IsLeft : HaMsg → List ℕ → List ℕ → HaMsg → Type 0
IsLeft m name other m' =
    (strings_named m ≡ true → strings_named m' ≡ true)
    × (bytes_eq other name ≡ false → cl_get_value m' other ≡ cl_get_value m other)

pub remove-IsLeft :
    (m : HaMsg) (name other : List ℕ) → Ends (IsLeft m name other) (cl_msg_remove m name)
unfolding strings_named cl_get_value cl_msg_remove
remove-IsLeft empty name other = tt
remove-IsLeft (field name' v' m) name other = elim (Bool-cases (bytes_eq name name')) [
  | inl eq ↦ rw eq (
    (λ h. (both (fits_name name' v') (strings_named m) h).1),
    λ d.
        let d' : bytes_eq other name' ≡ false =
          subst (λ u. bytes_eq other u ≡ false) ((bytes_eq_iff name name').0 eq) d in
        rw d' refl,
  )
  | inr ne ↦ rw ne (
      Ends-bind (IsLeft m name other) (IsLeft (field name' v' m) name other) (cl_msg_remove m name)
        _ (remove-IsLeft m name other)
        (λ m' l. (
          (λ h.
              let (fits, rest) = both (fits_name name' v') (strings_named m) h in
              and fits (l.0 rest)),
          λ d. ap (λ o. if bytes_eq other name' then some v' else o) (l.1 d),
        )))
]

abbrev all_good : List String → Bool
all_good [] = true
all_good (o ∷ os) = good_name (codes o) && all_good os

good_of :
    (os : List String) (b : List ℕ)
    → is_code_of os b ≡ true
    → all_good os ≡ true
    → good_name b ≡ true
good_of [] b h g = absurd (ground (arith, h))
good_of (o ∷ os) b h g = elim (Bool-cases (bytes_eq (codes o) b)) [
  | inl e ↦ subst (λ u. good_name u ≡ true) ((bytes_eq_iff (codes o) b).0 e) (ground (arith, g))
  | inr e ↦ good_of os b (ground (arith, e, h)) (ground (arith, g))
]

all_names_good : all_good written_names ≡ true
unfolding good_name no_stop
all_names_good = refl

-- A name that the daemon writes is neither empty nor of the typed form.
pub written-good : (n : String) → is_written n ≡ true → good_name (codes n) ≡ true
written-good n h = good_of written_names (codes n) (written_code n h) all_names_good
