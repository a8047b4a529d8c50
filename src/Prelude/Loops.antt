-- ===== src/Prelude/Loops.antt =====
-- Loops on fuel. `none` is a loop that has not ended within its fuel.
use mathlib.Core.Path.{◌≡◌, refl, subst}
use mathlib.Core.Option.{Option, none, some}

infixl 5 ◌>>=◌
abbrev pub ◌>>=◌ {ℓ κ} : {A : Type ℓ} {B : Type κ} → Option A → (A → Option B) → Option B
none >>= f = none
some a >>= f = f a

-- The run ends, and its result satisfies `P`.
pub data Returns {ℓ κ} {A : Type ℓ} (P : A → Type κ) : Option A → Type (ℓ ⊔ κ) where
  returns : {a : A} → P a → Returns P (some a)

-- The result of a run that ends.
abbrev pub result_or {ℓ} : {A : Type ℓ} → A → Option A → A
result_or d none = d
result_or d (some a) = a

module _ {ℓ κ} {A : Type ℓ} {P : A → Type κ} where
  pub Returns-map {κ'} :
      {Q : A → Type κ'} {r : Option A} → Returns P r → ((a : A) → P a → Q a) → Returns Q r
  Returns-map (returns p) k = returns (k _ p)

  pub Returns-bind {ℓ' κ'} :
      {B : Type ℓ'} {Q : B → Type κ'} {r : Option A} {f : A → Option B}
      → Returns P r
      → ((a : A) → P a → Returns Q (f a))
      → Returns Q (r >>= f)
  Returns-bind (returns p) k = k _ p

  pub Returns-then {ℓ' ℓ'' κ'} :
      {B : Type ℓ'} {C : Type ℓ''} {Q : C → Type κ'} {r : Option A} {f : A → B} (k : B → Option C)
      → Returns P r
      → ((a : A) → P a → Returns Q (k (f a)))
      → Returns Q (r >>= (λ a. some (f a)) >>= k)
  Returns-then k (returns p) next = next _ p

  pub Returns-inv : {r : Option A} → Returns P r → (a : A) × (r ≡ some a) × P a
  Returns-inv (returns p) = (_, refl, p)

  -- What holds of the result holds of the value that it is.
  pub Returns-at : {r : Option A} {a : A} → Returns P r → r ≡ some a → P a
  Returns-at (returns p) e = subst P (cc e) p

  pub Returns-result : {r : Option A} (d : A) → Returns P r → P (result_or d r)
  Returns-result d (returns p) = p

-- What holds of the result of a run, if it has one.
pub record Ends {ℓ κ} {A : Type ℓ} (P : A → Type κ) (r : Option A) : Type (ℓ ⊔ κ) where
  pub ends : (a : A) → r ≡ some a → P a

module _ {ℓ κ} {A : Type ℓ} {P : A → Type κ} where
  pub Ends-some : {a : A} → P a → Ends P (some a)
  Ends-some {a} p = record { ends = λ b e. subst P (cc e) p }

  pub Ends-bind :
      {B : Type ℓ} (r : Option B) {f : B → Option A}
      → ((b : B) → r ≡ some b → Ends P (f b))
      → Ends P (r >>= f)
  Ends-bind none k = record { ends = λ a e. absurd (cc e) }
  Ends-bind (some b) k = k b refl

  pub Ends-then :
      {B C : Type ℓ} {f : B → C} (k : C → Option A) (r : Option B)
      → ((b : B) → r ≡ some b → Ends P (k (f b)))
      → Ends P (r >>= (λ b. some (f b)) >>= k)
  Ends-then k none next = record { ends = λ a e. absurd (cc e) }
  Ends-then k (some b) next = next b refl

  -- A run that ends, and what holds then.
  pub Returns-both {κ'} :
      {Q : A → Type κ'} {r : Option A} → Returns Q r → Ends P r → Returns (λ a. Q a × P a) r
  Returns-both (returns q) e = returns (q, e.ends _ refl)
