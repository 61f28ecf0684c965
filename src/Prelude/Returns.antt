-- ===== src/Prelude/Returns.antt =====
-- What holds of the result of a call, should it not throw.
use mathlib.Core.Path.{◌≡◌, subst}
use mathlib.Core.Bool.{Bool, true, false}
use mathlib.Core.Option.{Option, none, some}
use drob.Prelude.Tests.{if◌then◌else◌, ◌>>=◌, >>=-eq-some, some-eq, none-ne-some}

pub record Returns {ℓ κ} {A : Type ℓ} (P : A → Type κ) (m : Option A) : Type (ℓ ⊔ κ) where
  pub result : (a : A) → m ≡ some a → P a

pub Returns-none {ℓ κ} : {A : Type ℓ} {P : A → Type κ} → Returns P none
Returns-none = record { result = λ a e. elim (none-ne-some e) [ ] }

pub Returns-some {ℓ κ} : {A : Type ℓ} {P : A → Type κ} (a : A) → P a → Returns P (some a)
Returns-some {P = P} a p = record { result = λ b e. subst P (some-eq e) p }

pub Returns-if {ℓ κ} :
    {A : Type ℓ} {P : A → Type κ} (b : Bool) {x y : Option A}
    → Returns P x
    → Returns P y
    → Returns P (if b then x else y)
Returns-if true p q = p
Returns-if false p q = q

pub Returns-bind {ℓ κ μ} :
    {A : Type ℓ} {B : Type κ} {P : B → Type μ} (m : Option A) {f : A → Option B}
    → ((a : A) → m ≡ some a → Returns P (f a))
    → Returns P (m >>= f)
Returns-bind m {f} h = record {
  result = λ b e. let r = >>=-eq-some m f e in (h r.0 r.1).result b r.2;
}
