-- ===== src/Base/Lists.antt =====
-- Lists measured by native numbers, and how often a number occurs in one.
use Prim.Native.Nat.{ℕ, suc, ◌+◌, ◌≤◌}
use mathlib.Core.Path.{◌≡◌, refl}
use mathlib.Core.Logic.{◌⊎◌, inl, inr}
use mathlib.Core.List.{List, [], ◌∷◌, ◌++◌}
use native.Mathlib.Omega.{arith}
use dmtimer.Base.Tests.{◌==◌, if◌then◌else◌, Bool-cases, ==→eq, ==_self}

module _ {ℓ} {A : Type ℓ} where
  abbrev pub length : List A → ℕ
  length [] = 0
  length (_ ∷ xs) = suc (length xs)

  pub length-append : (xs ys : List A) → length (xs ++ ys) ≡ length xs + length ys
  length-append [] ys = omega arith
  length-append (x ∷ xs) ys = omega (arith, length-append xs ys)

-- 1 where the two numbers are equal, else 0
abbrev pub hit : ℕ → ℕ → ℕ
hit p q = if p == q then 1 else 0

abbrev pub count : ℕ → List ℕ → ℕ
count p [] = 0
count p (q ∷ xs) = hit p q + count p xs

pub count-append : (p : ℕ) (xs ys : List ℕ) → count p (xs ++ ys) ≡ count p xs + count p ys
count-append p [] ys = omega arith
count-append p (x ∷ xs) ys = omega (arith, count-append p xs ys)

pub List-cases {ℓ} :
    {A : Type ℓ} (xs : List A) → (xs ≡ []) ⊎ ((x : A) × (ys : List A) × (xs ≡ x ∷ ys))
List-cases [] = inl refl
List-cases (x ∷ ys) = inr (x, ys, refl)

-- A new address among distinct ones.
pub once_more : (f : ℕ → ℕ) (n q : ℕ) → f n ≡ 0 → f q ≤ 1 → f q + hit q n ≤ 1
once_more f n q new d = elim (Bool-cases (q == n)) [
  | inl e ↦ rw (==→eq q n e, ==_self n, new) (omega arith)
  | inr ne ↦ rw ne (omega (arith, d))
]
