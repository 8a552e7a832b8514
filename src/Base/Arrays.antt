-- ===== src/Base/Arrays.antt =====
-- Arrays as functions of the index: update, and the number of occurrences in the first `n` slots
-- of an array of lists.
use Prim.Native.Nat.{ℕ, zero, suc, ◌+◌, ◌≤◌, ◌<◌}
use mathlib.Core.Path.{◌≡◌, refl}
use mathlib.Core.Logic.{inl, inr}
use mathlib.Core.List.{List, []}
use mathlib.Core.Bool.{Bool, false}
use native.Mathlib.Omega.{arith}
use dmtimer.Base.Tests.{◌==◌, if◌then◌else◌, Bool-cases, ==→eq}
use dmtimer.Base.Lists.{count}

abbrev pub update {ℓ} : {A : Type ℓ} → (ℕ → A) → ℕ → A → ℕ → A
update f i v j = if j == i then v else f j

unfoldable pub count_below : ℕ → ℕ → (ℕ → List ℕ) → ℕ
count_below p zero f = 0
count_below p (suc n) f = count p (f n) + count_below p n f

pub count_below-update_of_le :
    (p n : ℕ) (f : ℕ → List ℕ) (i : ℕ) (v : List ℕ)
    → n ≤ i
    → count_below p n (update f i v) ≡ count_below p n f
unfolding count_below
count_below-update_of_le p zero f i v h = refl
count_below-update_of_le p (suc n) f i v h = ground (arith, count_below-update_of_le p n f i v)

-- Replacing a slot exchanges the occurrences in the old list for those in the new one.
pub count_below-update :
    (p n : ℕ) (f : ℕ → List ℕ) (i : ℕ) (v : List ℕ)
    → i < n
    → count_below p n (update f i v) + count p (f i) ≡ count_below p n f + count p v
unfolding count_below
count_below-update p zero f i v h = absurd (omega arith)
count_below-update p (suc n) f i v h = elim (Bool-cases (n == i)) [
  | inl e ↦ ground (arith, count_below-update_of_le p n f i v, ==→eq n i e)
  | inr e ↦ ground (arith, count_below-update p n f i v)
]

pub count-le-count_below :
    (p n : ℕ) (f : ℕ → List ℕ) (i : ℕ) → i < n → count p (f i) ≤ count_below p n f
unfolding count_below
count-le-count_below p zero f i h = absurd (omega arith)
count-le-count_below p (suc n) f i h = elim (Bool-cases (n == i)) [
  | inl e ↦ ground (arith, ==→eq n i e)
  | inr e ↦ ground (arith, count-le-count_below p n f i)
]

pub count_below-eq-zero :
    (p n : ℕ) (f : ℕ → List ℕ) → ((i : ℕ) → count p (f i) ≡ 0) → count_below p n f ≡ 0
unfolding count_below
count_below-eq-zero p zero f h = refl
count_below-eq-zero p (suc n) f h = omega (arith, h n, count_below-eq-zero p n f h)

pub count_below-empty :
    (p n : ℕ) (f : ℕ → List ℕ) → ((i : ℕ) → i < n → f i ≡ []) → count_below p n f ≡ 0
unfolding count_below
count_below-empty p zero f empty = refl
count_below-empty p (suc n) f empty =
    let rest = count_below-empty p n f (λ i h. empty i (omega arith)) in
    rw (empty n (omega arith)) (omega (arith, rest))

-- The number of true entries among the first `n`.
abbrev pub mark : Bool → ℕ
mark b = if b then 1 else 0

unfoldable pub marks_below : ℕ → (ℕ → Bool) → ℕ
marks_below zero f = 0
marks_below (suc n) f = mark (f n) + marks_below n f

marks_below-update_of_le :
    (n : ℕ) (f : ℕ → Bool) (i : ℕ) (b : Bool)
    → n ≤ i
    → marks_below n (update f i b) ≡ marks_below n f
unfolding marks_below
marks_below-update_of_le zero f i b h = refl
marks_below-update_of_le (suc n) f i b h = ground (arith, marks_below-update_of_le n f i b)

pub marks_below-update :
    (n : ℕ) (f : ℕ → Bool) (i : ℕ) (b : Bool)
    → i < n
    → marks_below n (update f i b) + mark (f i) ≡ marks_below n f + mark b
unfolding marks_below
marks_below-update zero f i b h = absurd (omega arith)
marks_below-update (suc n) f i b h = elim (Bool-cases (n == i)) [
  | inl e ↦ ground (arith, marks_below-update_of_le n f i b, ==→eq n i e)
  | inr e ↦ ground (arith, marks_below-update n f i b)
]

pub marks_below-none : (n : ℕ) → marks_below n (λ _. false) ≡ 0
unfolding marks_below
marks_below-none zero = refl
marks_below-none (suc n) = omega (arith, marks_below-none n)

-- What occurs in the first `n` slots occurs in one of them.
pub count_below-where :
    (p n : ℕ) (f : ℕ → List ℕ) → 0 < count_below p n f → (i : ℕ) × (0 < count p (f i))
unfolding count_below
count_below-where p zero f h = absurd (omega arith)
count_below-where p (suc n) f h = elim (Bool-cases (0 == count p (f n))) [
  | inl e ↦ count_below-where p n f (ground (arith, e))
  | inr ne ↦ (n, ground (arith, ne))
]
