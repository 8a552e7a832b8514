-- ===== src/RapidPool/Addresses.antt =====
-- Addresses of objects, and which objects are live after the marks of one slot change.
use native.Mathlib.Nat.{
  mul-add-div_right, mul-add-mod_self_right, div-eq_of_lt, mod-eq_of_lt, div-add-mod',
}
use dmtimer.Base.{
  ℕ, zero, suc, ◌/◌, ◌%◌, ◌<◌, ◌≡◌, ◌∙◌, refl, sym, inl, inr, Bool, some, ◌==◌, if◌then◌else◌,
  update, arith, Bool-cases, ==→eq, ==_self, ◌&&◌,
}
use dmtimer.RapidPool.{
  RapidPool, DynamicRapidPool, array_of, put_grown, put_default, address, is_live,
}

-- the pools with array `k` replaced
abbrev pub put : ℕ → RapidPool → DynamicRapidPool → DynamicRapidPool
put zero p d = put_default d p
put (suc i) p d = put_grown d i p

pub array_of-put :
    (j k : ℕ) (p : RapidPool) (d : DynamicRapidPool)
    → array_of j (put k p d) ≡ (if j == k then some p else array_of j d)
unfolding array_of put_grown put_default
array_of-put zero zero p d = refl
array_of-put zero (suc k) p d = ground arith
array_of-put (suc j) zero p d = ground arith
array_of-put (suc j) (suc k) p d = ground arith

module _ (S : ℕ) where
  pub address-div : (k i : ℕ) → i < S → address S k i / S ≡ k
  address-div k i h = mul-add-div_right (omega arith) k i ∙ (rw (div-eq_of_lt h) (omega arith))

  pub address-mod : (k i : ℕ) → i < S → address S k i % S ≡ i
  address-mod k i h = mul-add-mod_self_right k S i ∙ mod-eq_of_lt h

  -- An address is equal to another exactly if array and slot are.
  address_eq : (b k i : ℕ) → i < S → (b == address S k i) ≡ (b / S == k && (b % S == i))
  address_eq b k i h = elim (Bool-cases (b == address S k i)) [
    | inl e ↦ rw (e, ==→eq b _ e, address-div k i h, address-mod k i h, ==_self k, ==_self i)
    | inr n ↦ elim (Bool-cases (b / S == k)) [
      | inl ek ↦ elim (Bool-cases (b % S == i)) [
        | inl ei ↦ ground (arith, div-add-mod' b S, ==→eq _ k ek, ==→eq _ i ei)
        | inr ni ↦ rw (n, ek, ni)
      ]
      | inr nk ↦ rw (n, nk)
    ]
  ]

  -- With array `k` replaced by one whose marks differ at slot `i`, the live objects differ at the
  -- address of that slot.
  pub is_live-put :
      (k i : ℕ) (m : Bool) (p : RapidPool) (d : DynamicRapidPool) (in_use : ℕ → Bool)
      → i < S
      → ((b : ℕ) → b / S ≡ k → is_live S d b ≡ in_use (b % S))
      → p.in_use ≡ update in_use i m
      → (b : ℕ) → is_live S (put k p d) b ≡ (if b == address S k i then m else is_live S d b)
  unfolding is_live
  is_live-put k i m p d in_use h old e b = elim (Bool-cases (b / S == k)) [
    | inl ek ↦
        rw (array_of-put, address_eq, ek, e)
          (elim (Bool-cases (b % S == i)) [
            | inl ei ↦ rw ei
            | inr ni ↦ rw ni (sym (old b (==→eq _ k ek)))
          ])
    | inr nk ↦ rw (array_of-put, address_eq, nk)
  ]
