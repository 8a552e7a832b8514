-- ===== src/Cron/Field/Sound.antt =====
-- `set_cron_field` throws `bad_cronexpr` or sets a bit, and never leaves the bitset.
use dmtimer.Base.{
  ℕ, ◌-◌, ◌≤◌, ◌<◌, ◌≡◌, inl, inr, true, ◌||◌, ltb, ◌==◌, if◌then◌else◌, arith, length,
  Option-cases, Bool-cases, List, [], ◌∷◌, Returns-mono, Tried, tried, threw, Tried-bind,
  Tried-mono, Tried-of,
}
use dmtimer.Cron.{Bits}
use dmtimer.Cron.Text.{Bytes, contains, split, stoul, to_cron_int}
use dmtimer.Cron.Field.{
  is_only, ends_with, range_between, range_of, make_range, set_bits, rounds_enough, set_range,
  set_steps, set_one, set_all, set_cron_field,
}
use dmtimer.Cron.Field.Steps.{set_bits-Sets}

-- Both numbers are bytes.
abbrev AreBytes : ℕ × ℕ → Type 0
AreBytes r = (r.0 < 256) × (r.1 < 256)

to_cron_int-Tried : (text : Bytes) → Tried (λ n. n < 256) (to_cron_int text)
unfolding to_cron_int
to_cron_int-Tried text = elim (Option-cases (stoul text)) [
  | inl e ↦ rw (e, to_cron_int) threw
  | inr (n, e) ↦ rw (e, to_cron_int) (tried (omega arith))
]

range_between-Tried : (parts : List Bytes) → Tried AreBytes (range_between parts)
unfolding range_between
range_between-Tried [] = threw
range_between-Tried (a ∷ []) = threw
range_between-Tried (a ∷ b ∷ []) =
    Tried-bind (to_cron_int-Tried a) λ x h. Tried-bind (to_cron_int-Tried b) λ y k. tried (h, k)
range_between-Tried (a ∷ b ∷ c ∷ parts) = threw

range_of-Tried :
    (field : Bytes) (minval maxval : ℕ)
    → minval < 256
    → maxval < 256
    → Tried AreBytes (range_of field minval maxval)
unfolding range_of
range_of-Tried field minval maxval low high = elim (Bool-cases (is_only b'*' field)) [
  | inl e ↦ rw (e, range_of) (tried (low, high))
  | inr n ↦ elim (Bool-cases (contains field b'-')) [
    | inr e ↦ rw (n, e, range_of) (Tried-bind (to_cron_int-Tried field) λ a h. tried (h, h))
    | inl e ↦ rw (n, e, range_of) (range_between-Tried (split field b'-'))
  ]
]

-- The bounds of a field, and the size of its bitset.
pub record IsSized (N minval maxval : ℕ) : Type 0 where
  pub ordered : minval ≤ maxval
  pub inside : maxval - minval < N
  pub small : maxval < 128

-- `make_range` gives a range within the bounds.
pub record IsRange (minval maxval : ℕ) (r : ℕ × ℕ) : Type 0 where
  pub above : minval ≤ r.0
  pub ordered : r.0 ≤ r.1
  pub below : r.1 ≤ maxval

pub make_range-Tried :
    (field : Bytes) (minval maxval : ℕ)
    → minval ≤ maxval
    → maxval < 128
    → Tried (IsRange minval maxval) (make_range field minval maxval)
unfolding make_range
make_range-Tried field minval maxval ordered small =
    Tried-bind (range_of-Tried field minval maxval (omega arith) (omega arith)) λ r h.
      elim (Bool-cases (ltb maxval r.0 || ltb maxval r.1)) [
        | inl e ↦ rw e threw
        | inr n1 ↦ elim (Bool-cases (ltb r.0 minval || ltb r.1 minval)) [
          | inl e ↦ rw (n1, e) threw
          | inr n2 ↦ elim (Bool-cases (ltb r.1 r.0)) [
            | inl e ↦ rw (n1, n2, e) threw
            | inr n3 ↦
                rw (n1, n2, n3)
                  (tried
                    (record { above = ground arith; ordered = ground arith; below = ground arith }))
          ]
        ]
      ]

-- The field keeps the bits that are set, and sets at least one of its own.
pub record Marked (N : ℕ) (target t : Bits) : Type 0 where
  pub kept : (j : ℕ) → target j ≡ true → t j ≡ true
  pub bit : ℕ
  pub inside : bit < N
  pub is_set : t bit ≡ true

module _ {N minval maxval : ℕ} (sized : IsSized N minval maxval) (target : Bits) where
  Marked-of :
      (r : ℕ × ℕ) (delta stop : ℕ)
      → IsRange minval maxval r
      → 0 < delta
      → delta < 256
      → r.0 ≤ stop
      → stop ≤ maxval
      → Tried
          (Marked N target)
          (set_bits N rounds_enough delta (stop - minval) (r.0 - minval) target)
  Marked-of r delta stop range pos byte from upto = Tried-of (
      Returns-mono
        (set_bits-Sets N delta (stop - minval) (r.0 - minval) target pos byte
          (omega (arith, sized.small)) (omega (arith, sized.inside, sized.ordered))
          (omega (arith, sized.small, range.ordered, range.below)))
        λ t s. record {
          kept = s.kept;
          bit = r.0 - minval;
          inside = omega (arith, sized.inside, sized.ordered, range.ordered, range.below);
          is_set = s.first (omega arith);
        })

  set_range-Tried :
      (field : Bytes) → Tried (Marked N target) (set_range N field minval maxval target)
  unfolding set_range
  set_range-Tried field =
      Tried-bind (make_range-Tried field minval maxval sized.ordered sized.small)
        λ r range. Marked-of r 1 r.1 range (omega arith) (omega arith) range.ordered range.below

  set_steps-Tried :
      (parts : List Bytes) → Tried (Marked N target) (set_steps N parts minval maxval target)
  unfolding set_steps
  set_steps-Tried [] = threw
  set_steps-Tried (a ∷ []) = threw
  set_steps-Tried (start ∷ step ∷ []) =
      Tried-bind (make_range-Tried start minval maxval sized.ordered sized.small) λ r range.
        Tried-bind (to_cron_int-Tried step) λ delta byte. elim (Bool-cases (delta == 0)) [
          | inl e ↦ rw e threw
          | inr n ↦ rw n (
              Marked-of r delta (if contains start b'-' then r.1 else maxval) range (ground arith)
                byte (ground (arith, range.ordered, range.below)) (ground (arith, range.below)))
        ]
  set_steps-Tried (a ∷ b ∷ c ∷ parts) = threw

  set_one-Tried : (field : Bytes) → Tried (Marked N target) (set_one N field minval maxval target)
  unfolding set_one
  set_one-Tried field = elim (Bool-cases (contains field b'/')) [
    | inl e ↦ rw e (set_steps-Tried (split field b'/'))
    | inr n ↦ rw n (set_range-Tried field)
  ]

module _ {N minval maxval : ℕ} (sized : IsSized N minval maxval) where
  set_all-Tried :
      (fields : List Bytes) (target : Bits)
      → 0 < length fields
      → Tried (Marked N target) (set_all N fields minval maxval target)
  unfolding set_all
  set_all-Tried [] target fields_left = absurd (omega arith)
  set_all-Tried (field ∷ []) target fields_left =
      Tried-bind (set_one-Tried sized target field) λ t m. tried m
  set_all-Tried (field ∷ next ∷ fields) target fields_left =
      Tried-bind (set_one-Tried sized target field) λ t m.
        Tried-mono (set_all-Tried (next ∷ fields) t (omega arith)) λ t' m'. record {
          kept = λ j h. m'.kept j (m.kept j h);
          bit = m'.bit;
          inside = m'.inside;
          is_set = m'.is_set;
        }

  pub set_cron_field-Tried :
      (value : Bytes) (target : Bits)
      → Tried (Marked N target) (set_cron_field N value minval maxval target)
  unfolding set_cron_field
  set_cron_field-Tried value target = elim (Bool-cases (ends_with b',' value)) [
    | inl e ↦ rw e threw
    | inr n ↦ elim (Bool-cases (length (split value b',') == 0)) [
      | inl e ↦ rw (n, e) threw
      | inr m ↦ rw (n, m) (set_all-Tried (split value b',') target (ground arith))
    ]
  ]
