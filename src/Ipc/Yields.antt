-- ===== src/Ipc/Yields.antt =====
-- Computations that return a value with a property: no step of them faults or is refused, and they
-- do not want fuel.
use cluster_glue_import.Prelude.{◌≡◌, refl, ap, ◌∙◌, Bool, true, false, if◌then◌else◌}
use cluster_glue_import.Message.{Result, done, ◌>>=◌}

pub record Yields {ℓ} {A : Type ℓ} (P : A → Type 0) (r : Result A) : Type ℓ where
  pub value : A
  pub returns : r ≡ done value
  pub holds : P value

module _ {ℓ} {A : Type ℓ} {P : A → Type 0} where
  pub yields : {a : A} → P a → Yields P (done a)
  yields {a} p = record { value = a; returns = refl; holds = p }

  pub Yields-if :
      {b : Bool} {r r' : Result A}
      → (b ≡ true → Yields P r)
      → (b ≡ false → Yields P r')
      → Yields P (if b then r else r')
  Yields-if {b = true} h h' = h refl
  Yields-if {b = false} h h' = h' refl

pub Yields-bind {ℓ κ} :
    {A : Type ℓ} {B : Type κ} {P : A → Type 0} {Q : B → Type 0} {r : Result A} {f : A → Result B}
    → Yields P r
    → ((a : A) → P a → Yields Q (f a))
    → Yields Q (r >>= f)
Yields-bind {f = f} y g =
    let z = g y.value y.holds in
    record { value = z.value; returns = ap (λ r. r >>= f) y.returns ∙ z.returns; holds = z.holds }

pub Yields-weaken {ℓ} :
    {A : Type ℓ} {P Q : A → Type 0} {r : Result A} → ((a : A) → P a → Q a) → Yields P r → Yields Q r
Yields-weaken f y = record { value = y.value; returns = y.returns; holds = f y.value y.holds }
