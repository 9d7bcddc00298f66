-- ===== src/Base/Ending.antt =====
-- How a call ends: with a value, with a panic, or not within its fuel.
use mathlib.Core.Path.{◌≡◌, refl, ap, subst, ◌∙◌}
use mathlib.Core.Bool.{Bool, true, false}
use go_netx.Base.Tests.{if◌then◌else◌}

pub data Outcome {ℓ} (A : Type ℓ) : Type ℓ where
  returns : A → Outcome A
  panics : Outcome A
  runs_on : Outcome A

-- The calls of a body, one after the other.
abbrev pub and_then {ℓ κ} : {A : Type ℓ} {B : Type κ} → Outcome A → (A → Outcome B) → Outcome B
and_then (returns a) f = f a
and_then panics f = panics
and_then runs_on f = runs_on

-- The call ends with a value of which P holds.
abbrev pub Ends {ℓ κ} : {A : Type ℓ} → (A → Type κ) → Outcome A → Type (ℓ ⊔ κ)
Ends {A = A} P o = (a : A) × (o ≡ returns a) × P a

module _ {ℓ κ μ ν} {A : Type ℓ} {B : Type κ} where
  pub Ends-and_then :
      (P : A → Type μ) (Q : B → Type ν) (o : Outcome A) (f : A → Outcome B)
      → Ends P o
      → ((a : A) → P a → Ends Q (f a))
      → Ends Q (and_then o f)
  Ends-and_then P Q o f (a, e, p) next =
      let (b, e', q) = next a p in (b, ap (λ x. and_then x f) e ∙ e', q)

module _ {ℓ κ} {A : Type ℓ} where
  pub Ends-if :
      (P : A → Type κ) (b : Bool) {x y : Outcome A}
      → (b ≡ true → Ends P x)
      → (b ≡ false → Ends P y)
      → Ends P (if b then x else y)
  Ends-if P true f g = f refl
  Ends-if P false f g = g refl

-- What holds of the value that a call returns, if it returns.
abbrev pub OnReturn {ℓ κ} : {A : Type ℓ} → (A → Type κ) → Outcome A → Type κ
OnReturn P (returns a) = P a
OnReturn P panics = Unit
OnReturn P runs_on = Unit

module _ {ℓ κ μ ν} {A : Type ℓ} {B : Type κ} where
  pub OnReturn-and_then :
      (P : A → Type μ) (Q : B → Type ν) (o : Outcome A) (f : A → Outcome B)
      → OnReturn P o
      → ((a : A) → P a → OnReturn Q (f a))
      → OnReturn Q (and_then o f)
  OnReturn-and_then P Q (returns a) f h next = next a h
  OnReturn-and_then P Q panics f h next = tt
  OnReturn-and_then P Q runs_on f h next = tt

module _ {ℓ μ ν} {A : Type ℓ} where
  pub Ends-OnReturn :
      (P : A → Type μ) (Q : A → Type ν) (o : Outcome A) → Ends P o → OnReturn Q o → Ends Q o
  Ends-OnReturn P Q o (a, e, p) h = (a, e, subst (OnReturn Q) e h)
