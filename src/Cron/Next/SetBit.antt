-- ===== src/Cron/Next/SetBit.antt =====
-- `next_set_bit` finds the first set bit from an offset on.
use dmtimer.Base.{
  ℕ, zero, suc, ◌+◌, ◌-◌, ◌≤◌, ◌<◌, ◌≡◌, refl, ◌⊎◌, inl, inr, true, false, arith, leb, Bool-cases,
  ==→eq, ◌==◌,
}
use dmtimer.Cron.{Bits}
use dmtimer.Cron.Date.{invalid_index}
use dmtimer.Cron.Next.{set_bit_from, next_set_bit}

-- `i` is the first set bit between `from` and `N`.
pub record IsFirst (N : ℕ) (target : Bits) (from i : ℕ) : Type 0 where
  pub from_offset : from ≤ i
  pub inside : i < N
  pub is_set : target i ≡ true
  pub none_before : (j : ℕ) → from ≤ j → j < i → target j ≡ false

none_from :
    (target : Bits) (i b : ℕ)
    → target i ≡ false
    → ((j : ℕ) → i + 1 ≤ j → j < b → target j ≡ false)
    → (j : ℕ) → i ≤ j
    → j < b
    → target j ≡ false
none_from target i b here later j h k = elim (Bool-cases (j == i)) [
  | inl e ↦ rw (==→eq j i e) here
  | inr n ↦ later j (ground arith) k
]

set_bit_from-IsFirst :
    (n N i : ℕ) (target : Bits)
    → i + n ≡ N
    → ((set_bit_from n i target ≡ invalid_index) × ((j : ℕ) → i ≤ j → j < N → target j ≡ false))
      ⊎ IsFirst N target i (set_bit_from n i target)
unfolding set_bit_from
set_bit_from-IsFirst zero N i target e = inl (refl, λ j h k. absurd (omega arith))
set_bit_from-IsFirst (suc n) N i target e = elim (Bool-cases (target i)) [
  | inl here ↦ rw here (
      inr (record {
        from_offset = omega arith;
        inside = omega arith;
        is_set = here;
        none_before = λ j h k. absurd (omega arith);
      }))
  | inr not_here ↦ rw not_here (elim (set_bit_from-IsFirst n N (i + 1) target (omega arith)) [
    | inl (e', later) ↦ inl (e', none_from target i N not_here later)
    | inr f ↦ inr (record {
      from_offset = omega (arith, f.from_offset);
      inside = f.inside;
      is_set = f.is_set;
      none_before = none_from target i _ not_here f.none_before;
    })
  ])
]

-- `next_set_bit` either gives `INVALID_INDEX`, and no bit from the offset on is set, or the first
-- set bit from the offset on, which is within the bitset.
pub next_set_bit-IsFirst :
    (N offset : ℕ) (target : Bits)
    → ((next_set_bit N target offset ≡ invalid_index)
        × ((j : ℕ) → offset ≤ j → j < N → target j ≡ false))
      ⊎ IsFirst N target offset (next_set_bit N target offset)
unfolding next_set_bit set_bit_from
next_set_bit-IsFirst N offset target = elim (Bool-cases (leb offset N)) [
  | inl e ↦ set_bit_from-IsFirst (N - offset) N offset target (ground arith)
  | inr n ↦
      let none_left : N - offset ≡ 0 = ground arith in
      rw none_left (inl (refl, λ j h k. absurd (absurd_of j (ground arith) h k)))
]
  where
    absurd_of : (j : ℕ) → N < offset → offset ≤ j → ¬ (j < N)
    absurd_of j a b c = omega arith
