-- ===== src/Cron/Field/Steps.antt =====
-- The loops of `set_cron_field` over a `uint8_t`: they end, and what bits they set.
use native.Mathlib.Nat.{mod-eq-sub-mod, mod-eq_of_lt, zero-mod}
use dmtimer.Base.{
  ℕ, zero, suc, ◌+◌, ◌-◌, ◌%◌, ◌≤◌, ◌<◌, ◌≡◌, refl, ◌∙◌, inl, inr, Bool, true, false, ◌&&◌, ◌||◌,
  leb, ltb, ◌==◌, arith, update, Bool-cases, ==_self, Returns, returns, Returns-mono,
}
use dmtimer.Cron.{Bits}
use dmtimer.Cron.Field.{set_bit, set_bits, rounds_enough}

-- `j` is one of `start`, `start + delta`, .. up to `stop`.
abbrev pub hits : ℕ → ℕ → ℕ → ℕ → Bool
hits start stop delta j = leb start j && (leb j stop && ((j - start) % delta == 0))

hits-next :
    (start stop delta j : ℕ)
    → 0 < delta
    → start ≤ stop
    → hits start stop delta j ≡ ((j == start) || hits (start + delta) stop delta j)
hits-next start stop delta j pos h = elim (Bool-cases (leb (start + delta) j)) [
  | inl far ↦
      let e : (j - start) % delta ≡ (j - start - delta) % delta = mod-eq-sub-mod (ground arith) in
      let e' : j - start - delta ≡ j - (start + delta) = omega arith in ground (arith, e, e', far)
  | inr near ↦ elim (Bool-cases (j == start)) [
    | inl same ↦ let e : j - start ≡ 0 = ground arith in rw (same, e, zero-mod) (ground arith)
    | inr other ↦ elim (Bool-cases (leb start j)) [
      | inl above ↦
          let e : (j - start) % delta ≡ j - start = mod-eq_of_lt (ground arith) in ground (arith, e)
      | inr below ↦ ground arith
    ]
  ]
]

hits-none : (start stop delta j : ℕ) → stop < start → hits start stop delta j ≡ false
hits-none start stop delta j h = ground arith

sets_one :
    (target : Bits) (i stop delta j : ℕ)
    → 0 < delta
    → leb i stop ≡ true
    → (update target i true j || hits (i + delta) stop delta j) ≡ (target j || hits i stop delta j)
sets_one target i stop delta j pos e = ground (arith, hits-next i stop delta j pos (ground arith))

-- The loop over a `uint8_t` from `i` to `stop`, if the step `delta` is positive and `stop + delta`
-- fits 8 bits, and `stop` is within the bitset, sets exactly the bits `i`, `i + delta`, `i + 2 *
-- delta`, .. up to `stop` and leaves the others, when the fuel is at least 1 and above `stop + 1 -
-- i`.
pub set_bits-exact :
    (N fuel delta stop i : ℕ) (target : Bits)
    → 0 < delta
    → stop + delta < 256
    → stop < N
    → stop + 1 < i + fuel
    → 0 < fuel
    → Returns
        (λ (t : Bits). (j : ℕ) → t j ≡ (target j || hits i stop delta j))
        (set_bits N fuel delta stop i target)
unfolding set_bits set_bit
set_bits-exact N zero delta stop i target pos small inside enough fueled = absurd (omega arith)
set_bits-exact N (suc fuel) delta stop i target pos small inside enough fueled =
    elim (Bool-cases (leb i stop)) [
      | inr n ↦ rw (n, set_bits) (returns λ j. ground (arith, hits-none i stop delta j))
      | inl e ↦
          let le : i ≤ stop = ground arith in
          let inside_i : ltb i N ≡ true = ground arith in
          let no_wrap : (i + delta) % 256 ≡ i + delta = ground arith in
          rw (e, inside_i, no_wrap, set_bits)
            (Returns-mono
              (set_bits-exact N fuel delta stop (i + delta) (update target i true) pos small inside
                (omega arith) (omega arith))
              λ t p j. p j ∙ sets_one target i stop delta j pos e)
    ]

-- What the loop keeps, and that it sets its first bit.
pub record Sets (i stop : ℕ) (target t : Bits) : Type 0 where
  pub kept : (j : ℕ) → target j ≡ true → t j ≡ true
  pub first : i ≤ stop → t i ≡ true

Sets-next :
    (i i' stop : ℕ) (target t : Bits) → Sets i' stop (update target i true) t → Sets i stop target t
Sets-next i i' stop target t s = record {
  kept = λ j h. s.kept j (ground arith);
  first = λ h. s.kept i (rw (==_self i) refl);
}

Sets-done : (i stop : ℕ) (target : Bits) → stop < i → Sets i stop target target
Sets-done i stop target h = record { kept = λ j e. e; first = λ k. absurd (omega arith) }

-- A step above 128 wraps the `uint8_t` to a smaller number, or ends the loop.
set_bits-down :
    (N fuel delta stop i : ℕ) (target : Bits)
    → 128 < delta
    → delta < 256
    → stop < 128
    → stop < N
    → i < 256
    → (i ≤ stop → i + 1 < fuel)
    → 0 < fuel
    → Returns (Sets i stop target) (set_bits N fuel delta stop i target)
unfolding set_bits set_bit
set_bits-down N zero delta stop i target big byte low inside small enough fueled =
    absurd (omega arith)
set_bits-down N (suc fuel) delta stop i target big byte low inside small enough fueled =
    elim (Bool-cases (leb i stop)) [
      | inr n ↦ rw (n, set_bits) (returns (Sets-done i stop target (ground arith)))
      | inl e ↦
          let le : i ≤ stop = ground arith in
          let inside_i : ltb i N ≡ true = ground arith in
          rw (e, inside_i, set_bits)
            (Returns-mono
              (set_bits-down N fuel delta stop ((i + delta) % 256) (update target i true) big byte
                low inside (omega arith) (λ h. omega (arith, enough le)) (omega (arith, enough le)))
              λ t s. Sets-next i _ stop target t s)
    ]

set_bits-up :
    (N fuel delta stop i : ℕ) (target : Bits)
    → 0 < delta
    → stop + delta < 256
    → stop < N
    → stop + 1 < i + fuel
    → 0 < fuel
    → Returns (Sets i stop target) (set_bits N fuel delta stop i target)
set_bits-up N fuel delta stop i target pos small inside enough fueled =
    Returns-mono (set_bits-exact N fuel delta stop i target pos small inside enough fueled) λ t p.
      record {
        kept = λ j e. p j ∙ rw e refl;
        first = λ h. p i ∙ ground (arith, hits-next i stop delta i pos h);
      }

-- The loop over a `uint8_t` ends within 256 rounds for every positive 8-bit step, also one that
-- wraps the `uint8_t`, if `stop` is below 128 and within the bitset and `i` is an 8-bit number. It
-- keeps the bits that are set, and sets bit `i` if `i` is not above `stop`.
pub set_bits-Sets :
    (N delta stop i : ℕ) (target : Bits)
    → 0 < delta
    → delta < 256
    → stop < 128
    → stop < N
    → i < 256
    → Returns (Sets i stop target) (set_bits N rounds_enough delta stop i target)
set_bits-Sets N delta stop i target pos byte low inside small = elim (Bool-cases (leb delta 128)) [
  | inl e ↦
      set_bits-up N 256 delta stop i target pos (ground arith) inside (omega arith) (omega arith)
  | inr n ↦
      set_bits-down N 256 delta stop i target (ground arith) byte low inside small
        (λ h. omega arith) (omega arith)
]
