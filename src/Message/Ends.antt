-- ===== src/Message/Ends.antt =====
-- Results that are not for want of fuel, with a property of the value.
use cluster_glue_import.Prelude.{◌≡◌, Bool, true, false, Option, some, none, if◌then◌else◌}
use cluster_glue_import.Message.{Result, done, refused, fault, unfinished, ◌>>=◌}

-- A result that has the property if it is a value, and that is not for want of fuel.
abbrev pub Ends {ℓ} : {A : Type ℓ} → (A → Type 0) → Result A → Type 0
Ends P (done a) = P a
Ends P refused = Unit
Ends P fault = Unit
Ends P unfinished = true ≡ false

abbrev pub Ended {ℓ} : {A : Type ℓ} → Result A → Type 0
Ended r = Ends (λ _. Unit) r

module _ {ℓ κ} {A : Type ℓ} {B : Type κ} (P : A → Type 0) (Q : B → Type 0) where
  -- What holds of the value of the first step may be used for the second.
  pub Ends-bind :
      (first : Result A) (next : A → Result B)
      → Ends P first
      → ((value : A) → P value → Ends Q (next value))
      → Ends Q (first >>= next)
  Ends-bind unfinished next h g = h
  Ends-bind fault next h g = tt
  Ends-bind refused next h g = tt
  Ends-bind (done value) next h g = g value h

pub Ends-if {ℓ} :
    {A : Type ℓ} (P : A → Type 0) (b : Bool) (r r' : Result A)
    → Ends P r
    → Ends P r'
    → Ends P (if b then r else r')
Ends-if P true r r' h h' = h
Ends-if P false r r' h h' = h'

pub Ends-elim {ℓ} :
    {A : Type ℓ} (P : A → Type 0) (b : Bool) (r r' : Result A)
    → Ends P r
    → Ends P r'
    → Ends P (elim b [ true ↦ r | false ↦ r' ])
Ends-elim P true r r' h h' = h
Ends-elim P false r r' h h' = h'

pub Ends-option {ℓ κ} :
    {A : Type ℓ} {B : Type κ} (P : B → Type 0) (o : Option A) (r : Result B) (f : A → Result B)
    → Ends P r
    → ((a : A) → Ends P (f a))
    → Ends P (elim o [ none ↦ r | some a ↦ f a ])
Ends-option P none r f h g = h
Ends-option P (some a) r f h g = g a

pub Ends-weaken {ℓ} :
    {A : Type ℓ} (P Q : A → Type 0) (r : Result A) → ((a : A) → P a → Q a) → Ends P r → Ends Q r
Ends-weaken P Q (done a) f h = f a h
Ends-weaken P Q refused f h = tt
Ends-weaken P Q fault f h = tt
Ends-weaken P Q unfinished f h = h

pub Ended-map {ℓ κ} :
    {A : Type ℓ} {B : Type κ} (r : Result A) (f : A → B) → Ended r → Ended (r >>= λ a. done (f a))
Ended-map (done a) f h = tt
Ended-map refused f h = tt
Ended-map fault f h = tt
Ended-map unfinished f h = h
