-- ===== src/RapidPool/Dynamic.antt =====
-- `CDynamicRapidPool`: fetching hands out an object that was not live, releasing takes it back, and no
-- other object is touched.
use native.Mathlib.Nat.{mod-lt, div-add-mod'}
use mathlib.Core.Bool.{false≢true}
use dmtimer.Base.{
  ℕ, zero, suc, ◌+◌, ◌/◌, ◌%◌, ◌^◌, ◌<◌, ◌≡◌, ◌∙◌, ◌⊎◌, refl, inl, inr, Bool, true, false, not, ltb,
  Option, none, some, ◌==◌, if◌then◌else◌, arith, Bool-cases, Option-cases, ==→eq, ==_self, Outcome,
  done, assert, ◌>>=◌,
}
use dmtimer.RapidPool.{
  RapidPool, DynamicRapidPool, make_pool, make_dynamic_pool, is_empty, array_of, located, address,
  in_use_at, is_live, fetch_slot, fetch_grown, fetch_obj, release_slot, release_in, release_obj,
}
use dmtimer.RapidPool.Slots.{IsPool, fetch_slot-IsPool, release_slot-IsPool, make_pool-IsPool}
use dmtimer.RapidPool.Addresses.{put, array_of-put, address-div, address-mod, is_live-put}

-- Array `k` is a valid pool of number `k`, and there are `I` further arrays at most.
pub record IsDynamic (S I : ℕ) (d : DynamicRapidPool) : Type 0 where
  pub nonempty : 0 < S
  pub small : S < 2 ^ 16
  pub few : I < 2 ^ 15
  pub arrays : (k : ℕ) (p : RapidPool) → array_of k d ≡ some p → IsPool S p × (p.index ≡ k)
  pub range : (k : ℕ) (p : RapidPool) → array_of k d ≡ some p → k < I + 1

-- A call of `FetchObj` that hands out object `object` and leaves `pools`.
pub record Obtained (S I : ℕ) (d : DynamicRapidPool) (r : Outcome (Option ℕ × DynamicRapidPool))
    : Type 0 where
  pub object : ℕ
  pub pools : DynamicRapidPool
  pub returns : r ≡ done (some object, pools)
  pub valid : IsDynamic S I pools
  pub was_free : is_live S d object ≡ false
  pub marked : (b : ℕ) → is_live S pools b ≡ (if b == object then true else is_live S d b)

-- A call of `ReleaseObj` that takes object `a` back and leaves `pools`.
pub record Released (S I : ℕ) (d : DynamicRapidPool) (a : ℕ) (r : Outcome DynamicRapidPool)
    : Type 0 where
  pub pools : DynamicRapidPool
  pub returns : r ≡ done pools
  pub valid : IsDynamic S I pools
  pub unmarked : (b : ℕ) → is_live S pools b ≡ (if b == a then false else is_live S d b)

-- Every array is there and has no free slot.
abbrev pub IsExhausted : ℕ → DynamicRapidPool → Type 0
IsExhausted I d =
    (k : ℕ) → k < I + 1 → (p : RapidPool) × (array_of k d ≡ some p) × (p.free_count ≡ 0)

-- the marks of array `k` are the live objects there
live_in :
    (S k : ℕ) (p : RapidPool) (d : DynamicRapidPool)
    → array_of k d ≡ some p
    → (b : ℕ) → b / S ≡ k
    → is_live S d b ≡ p.in_use (b % S)
unfolding is_live
live_in S k p d e b eb = rw (eb, e)

live_in_none :
    (S k : ℕ) (d : DynamicRapidPool)
    → array_of k d ≡ none
    → (b : ℕ) → b / S ≡ k
    → is_live S d b ≡ false
unfolding is_live
live_in_none S k d e b eb = rw (eb, e)

-- a new array has a free slot
make_pool-nonempty : (S i : ℕ) → 0 < S → not (is_empty (make_pool S i)) ≡ true
unfolding is_empty make_pool
make_pool-nonempty S i h = ground arith

no_free_slot : (p : RapidPool) → not (is_empty p) ≡ false → p.free_count ≡ 0
unfolding is_empty
no_free_slot p h = ground arith

first : (d : DynamicRapidPool) → array_of 0 d ≡ some d.default_pool
unfolding array_of
first d = refl

zero_of_lt_one : (k : ℕ) → k < suc 0 → k ≡ 0
zero_of_lt_one k h = omega arith

module _ {S I : ℕ} where
  put-IsDynamic :
      (k : ℕ) (p : RapidPool) (d : DynamicRapidPool)
      → IsDynamic S I d
      → IsPool S p
      → p.index ≡ k
      → k < I + 1
      → IsDynamic S I (put k p d)
  put-IsDynamic k p d v vp index range = record {
    nonempty = v.nonempty;
    small = v.small;
    few = v.few;
    arrays = λ j q h. elim (Bool-cases (j == k)) [
      | inl e ↦
          let same : p ≡ q = cc (rw (array_of-put, e) at h) in rw (← same, ==→eq j k e) (vp, index)
      | inr n ↦ v.arrays j q (rw (array_of-put, n) at h)
    ];
    range = λ j q h. elim (Bool-cases (j == k)) [
      | inl e ↦ rw (==→eq j k e) range
      | inr n ↦ v.range j q (rw (array_of-put, n) at h)
    ];
  }

  -- The fetch in array `k`, whose marks are `in_use` and which is put back.
  obtain :
      (ndebug : Bool) (k : ℕ) (p : RapidPool) (d : DynamicRapidPool)
      → IsDynamic S I d
      → IsPool S p
      → p.index ≡ k
      → k < I + 1
      → ((b : ℕ) → b / S ≡ k → is_live S d b ≡ p.in_use (b % S))
      → not (is_empty p) ≡ true
      → Obtained S I d (do r ← fetch_slot ndebug S p; done (located S k (λ p'. put k p' d) r))
  unfolding is_empty located
  obtain ndebug k p d v vp index range live nonempty = elim (fetch_slot-IsPool ndebug S p vp) [
    | inl (full, e) ↦ absurd (ground arith)
    | inr f ↦ rw f.returns (record {
      object = address S k f.slot;
      pools = put k f.pool d;
      returns = refl;
      valid = put-IsDynamic k f.pool d v f.valid (f.same_index ∙ index) range;
      was_free =
          live _ (address-div S k f.slot f.below) ∙ rw (address-mod S k f.slot f.below) f.was_free;
      marked = is_live-put S k f.slot true f.pool d p.in_use f.below live f.marked;
    })
  ]

  -- The loop over the further arrays, when the arrays before have no free slot.
  fetch_grown-lem :
      (ndebug : Bool) (n i : ℕ) (d : DynamicRapidPool)
      → i + n ≡ I
      → IsDynamic S I d
      → ((k : ℕ) → k < suc i → (p : RapidPool) × (array_of k d ≡ some p) × (p.free_count ≡ 0))
      → (IsExhausted I d × (fetch_grown ndebug S n i d ≡ assert ndebug false (done (none, d))))
        ⊎ Obtained S I d (fetch_grown ndebug S n i d)
  unfolding fetch_grown array_of
  fetch_grown-lem ndebug zero i d e v full = inl (λ k h. full k (omega arith), refl)
  fetch_grown-lem ndebug (suc n) i d e v full = elim (Option-cases (d.grow_pool i)) [
    | inl new ↦
        let p = make_pool S (suc i) in
        let (vp, free) = make_pool-IsPool S (suc i) v.small (omega (arith, v.few)) in
        let some_free = make_pool-nonempty S (suc i) v.nonempty in
        rw (new, fetch_grown, some_free)
          (inr (
            obtain ndebug (suc i) p d v vp (unfold make_pool in refl) (omega arith)
              (unfold make_pool in live_in_none S (suc i) d new) some_free))
    | inr (p, old) ↦ elim (Bool-cases (not (is_empty p))) [
      | inl some_free ↦
          rw (old, fetch_grown, some_free)
            (inr (
              obtain ndebug (suc i) p d v (v.arrays (suc i) p old).0 (v.arrays (suc i) p old).1
                (omega arith) (live_in S (suc i) p d old) some_free))
      | inr none_free ↦
          rw (old, fetch_grown, none_free)
            (fetch_grown-lem ndebug n (suc i) d (omega arith) v λ k h.
              elim (Bool-cases (k == suc i)) [
                | inl last ↦ (p, rw (==→eq _ _ last) old, no_free_slot p none_free)
                | inr before ↦ full k (ground arith)
              ])
    ]
  ]

  -- The release of object `a` in its array `k`, which is put back.
  take_back :
      (ndebug : Bool) (a k : ℕ) (p : RapidPool) (d : DynamicRapidPool)
      → IsDynamic S I d
      → a / S ≡ k
      → array_of k d ≡ some p
      → p.in_use (a % S) ≡ true
      → Released S I d a (do p' ← release_slot ndebug S (a % S) p; done (put k p' d))
  take_back ndebug a k p d v ek e used =
      let (vp, index) = v.arrays k p e in
      let inside : a % S < S = mod-lt a v.nonempty in
      let (p', returns, vp', marks, _, index') =
        release_slot-IsPool ndebug S p (a % S) vp inside used in
      let at : address S k (a % S) ≡ a = rw (← ek) (div-add-mod' a S) in
      rw returns (record {
        pools = put k p' d;
        returns = refl;
        valid = put-IsDynamic k p' d v vp' (index' ∙ index) (v.range k p e);
        unmarked = λ b.
            rw at at
              (is_live-put S k (a % S) false p' d p.in_use inside (live_in S k p d e) marks b);
      })

  release_in-lem :
      (ndebug : Bool) (a k : ℕ) (p : RapidPool) (d : DynamicRapidPool)
      → IsDynamic S I d
      → a / S ≡ k
      → array_of k d ≡ some p
      → p.in_use (a % S) ≡ true
      → Released S I d a (release_in ndebug S I k (a % S) d k)
  unfolding release_in array_of
  release_in-lem ndebug a zero p d v ek e used =
      let same : d.default_pool ≡ p = cc in
      take_back ndebug a 0 d.default_pool d v ek refl (rw same used)
  release_in-lem ndebug a (suc n) p d v ek e used =
      let below : ltb (suc n) (I + 1) ≡ true = ground (arith, v.range (suc n) p e) in
      rw (below, e, ==_self (suc n)) (take_back ndebug a (suc n) p d v ek e used)

  -- `FetchObj` of valid pools either finds every one of the `I + 1` arrays there without a free
  -- slot, and then ends as its failed assertion does, or without assertions returns null and leaves
  -- the pools as they are; or it hands out an object that was not live, makes exactly this one
  -- live, and leaves valid pools.
  pub fetch_obj-IsDynamic :
      (ndebug : Bool) (d : DynamicRapidPool)
      → IsDynamic S I d
      → (IsExhausted I d × (fetch_obj ndebug S I d ≡ assert ndebug false (done (none, d))))
        ⊎ Obtained S I d (fetch_obj ndebug S I d)
  unfolding fetch_obj
  fetch_obj-IsDynamic ndebug d v = elim (Bool-cases (not (is_empty d.default_pool))) [
    | inl some_free ↦ rw some_free (
        inr (
          obtain ndebug 0 d.default_pool d v (v.arrays 0 _ (first d)).0 (v.arrays 0 _ (first d)).1
            (omega arith) (live_in S 0 d.default_pool d (first d)) some_free))
    | inr none_free ↦ rw none_free (
        fetch_grown-lem ndebug I 0 d (omega arith) v λ k h. (
          d.default_pool,
          rw (zero_of_lt_one k h) (first d),
          no_free_slot d.default_pool none_free,
        ))
  ]

  -- `ReleaseObj` of a live object of valid pools returns, makes exactly this object not live, and
  -- leaves valid pools.
  pub release_obj-IsDynamic :
      (ndebug : Bool) (a : ℕ) (d : DynamicRapidPool)
      → IsDynamic S I d
      → is_live S d a ≡ true
      → Released S I d a (release_obj ndebug S I a d)
  unfolding release_obj is_live
  release_obj-IsDynamic ndebug a d v live = elim (Option-cases (array_of (a / S) d)) [
    | inl e ↦ absurd (false≢true (rw e at live))
    | inr (p, e) ↦
        let (vp, index) = v.arrays (a / S) p e in
        let number : p.slot_index (a % S) ≡ a / S =
          vp.free_list.indexed (a % S) (mod-lt a v.nonempty) ∙ index in
        rw (e, release_obj, number) (release_in-lem ndebug a (a / S) p d v refl e (rw e at live))
  ]

-- New pools are valid and no object is live, if the size is positive and fits 16 bits, and the
-- number of further arrays fits 15 bits.
pub make_dynamic_pool-IsDynamic :
    (S I : ℕ)
    → 0 < S
    → S < 2 ^ 16
    → I < 2 ^ 15
    → IsDynamic S I (make_dynamic_pool S) × ((b : ℕ) → is_live S (make_dynamic_pool S) b ≡ false)
unfolding make_dynamic_pool array_of is_live make_pool
make_dynamic_pool-IsDynamic S I pos small few = (
  record { nonempty = pos; small = small; few = few; arrays = arrays; range = range },
  λ b. nothing (b / S) (b % S),
)
  where
    d : DynamicRapidPool
    d = make_dynamic_pool S

    arrays : (k : ℕ) (p : RapidPool) → array_of k d ≡ some p → IsPool S p × (p.index ≡ k)
    arrays zero p e =
        let same : make_pool S 0 ≡ p = cc in
        rw (← same) ((make_pool-IsPool S 0 small (omega arith)).0, refl)
    arrays (suc k) p e = cc

    range : (k : ℕ) (p : RapidPool) → array_of k d ≡ some p → k < I + 1
    range zero p e = omega arith
    range (suc k) p e = cc

    nothing : (k i : ℕ) → in_use_at (array_of k d) i ≡ false
    nothing zero i = refl
    nothing (suc k) i = refl
