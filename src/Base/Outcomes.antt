-- ===== src/Base/Outcomes.antt =====
-- How a call ends: with a value, or stopped for a reason.
use mathlib.Core.Bool.{Bool}
use mathlib.Core.Path.{◌≡◌, refl}
use dmtimer.Base.Tests.{if◌then◌else◌}

-- `thrown`: an exception leaves the call. `aborted`: a failed `assert`, or a call of `abort` or of
-- `std::terminate`. `out_of_range`: the standard library's exception of this name. `undefined`: the
-- code reads what nothing was written to, or memory that is not there.
-- `ended`: a signal ends the program. `out_of_fuel`: the bound given
-- to a loop of the model is used up.
pub data Reason : Type 0 where
  thrown aborted out_of_range undefined ended out_of_fuel : Reason

pub data Outcome {ℓ} (A : Type ℓ) : Type ℓ where
  done : A → Outcome A
  stopped : Reason → Outcome A

infixl 5 ◌>>=◌
abbrev pub ◌>>=◌ {ℓ κ} : {A : Type ℓ} {B : Type κ} → Outcome A → (A → Outcome B) → Outcome B
done a >>= f = f a
stopped r >>= f = stopped r

-- two calls that go on the same way
pub bind-same {ℓ κ} :
    {A : Type ℓ} {B : Type κ} (m : Outcome A) (f g : A → Outcome B)
    → ((a : A) → m ≡ done a → f a ≡ g a)
    → (m >>= f) ≡ (m >>= g)
bind-same (done a) f g same = same a refl
bind-same (stopped r) f g same = refl

-- `assert(c)`: with `NDEBUG` defined nothing is tested.
abbrev pub assert {ℓ} : {A : Type ℓ} → Bool → Bool → Outcome A → Outcome A
assert ndebug c k = if c then k else if ndebug then k else stopped aborted

-- The call returns a value for which `P` holds.
pub data Returns {ℓ κ} {A : Type ℓ} (P : A → Type κ) : Outcome A → Type (ℓ ⊔ κ) where
  returns : {a : A} → P a → Returns P (done a)

module _ {ℓ κ} {A : Type ℓ} {P : A → Type κ} where
  pub Returns-bind {ι μ} :
      {B : Type ι} {Q : B → Type μ} {m : Outcome A} {f : A → Outcome B}
      → Returns P m
      → ((a : A) → P a → Returns Q (f a))
      → Returns Q (m >>= f)
  Returns-bind (returns p) next = next _ p

  pub Returns-mono {μ} :
      {Q : A → Type μ} {m : Outcome A} → Returns P m → ((a : A) → P a → Q a) → Returns Q m
  Returns-mono (returns p) weaken = returns (weaken _ p)

  pub Returns-value : {m : Outcome A} → Returns P m → (a : A) × (m ≡ done a) × P a
  Returns-value (returns p) = (_, refl, p)

  pub Returns-done : {a : A} → Returns P (done a) → P a
  Returns-done (returns p) = p

-- The call returns a value for which `P` holds, or it throws the program's own exception.
pub data Tried {ℓ κ} {A : Type ℓ} (P : A → Type κ) : Outcome A → Type (ℓ ⊔ κ) where
  tried : {a : A} → P a → Tried P (done a)
  threw : Tried P (stopped thrown)

module _ {ℓ κ} {A : Type ℓ} {P : A → Type κ} where
  pub Tried-bind {ι μ} :
      {B : Type ι} {Q : B → Type μ} {m : Outcome A} {f : A → Outcome B}
      → Tried P m
      → ((a : A) → P a → Tried Q (f a))
      → Tried Q (m >>= f)
  Tried-bind (tried p) next = next _ p
  Tried-bind threw next = threw

  pub Tried-mono {μ} :
      {Q : A → Type μ} {m : Outcome A} → Tried P m → ((a : A) → P a → Q a) → Tried Q m
  Tried-mono (tried p) weaken = tried (weaken _ p)
  Tried-mono threw weaken = threw

  pub Tried-of : {m : Outcome A} → Returns P m → Tried P m
  Tried-of (returns p) = tried p

module _ {ℓ κ ι} {A : Type ℓ} {B : Type κ} {P : B → Type ι} where
  -- what follows two calls in a row
  pub Returns-bind_after {μ ν} :
      {C : Type μ} {Q : C → Type ν} {g : B → Outcome C} (m : Outcome A) (f : A → Outcome B)
      → Returns P (m >>= f)
      → ((b : B) → P b → Returns Q (g b))
      → Returns Q (m >>= λ a. f a >>= g)
  Returns-bind_after (done a) f r next = Returns-bind r next
  Returns-bind_after (stopped w) f r next = elim r [ ]

-- What a call returns satisfies both of two predicates.
pub Returns-and {ℓ κ μ} :
    {A : Type ℓ} {P : A → Type κ} {Q : A → Type μ} {m : Outcome A}
    → Returns P m
    → Returns Q m
    → Returns (λ a. P a × Q a) m
Returns-and (returns p) (returns q) = returns (p, q)
