-- ===== src/RapidPool/Slots.antt =====
-- `CDMRapidPool`: the free list and the marks of the slots agree, fetching and releasing keep that,
-- and neither ever stops at an assertion.
use dmtimer.Base.{
  ℕ, zero, suc, ◌+◌, ◌-◌, ◌%◌, ◌^◌, ◌≤◌, ◌<◌, ◌≡◌, ◌⊎◌, inl, inr, refl, ap, sym, ◌&&◌, Bool, true,
  false, Option, none, some, leb, ltb, List, [], ◌∷◌, ◌==◌, if◌then◌else◌, update, Outcome, done,
  arith, length, count, mark, marks_below, marks_below-update, marks_below-none, ==_self,
}
use dmtimer.RapidPool.{RapidPool, make_pool, fetch_slot, release_slot}

-- From slot `a` the flags lead through the slots of the list.
abbrev pub Chain : (ℕ → ℕ) → ℕ → List ℕ → Type 0
Chain flag a [] = Unit {0}
Chain flag a (x ∷ xs) = (a ≡ x) × Chain flag (flag x) xs

-- The free list leads through `free`, as many slots as `m_nFreeCount` says; a slot below `S` is on it
-- once or in use, never both.
pub record FreeList (S : ℕ) (p : RapidPool) (free : List ℕ) : Type 0 where
  pub chain : Chain p.flag p.first_flag free
  pub counted : p.free_count ≡ length free
  pub inside : (i : ℕ) → 0 < count i free → i < S
  pub exclusive : (i : ℕ) → i < S → count i free + mark (p.in_use i) ≡ 1
  pub total : p.free_count + marks_below S p.in_use ≡ S
  pub indexed : (i : ℕ) → i < S → p.slot_index i ≡ p.index

pub record IsPool (S : ℕ) (p : RapidPool) : Type 0 where
  pub free : List ℕ
  pub free_list : FreeList S p free

-- A write to the flag of a slot outside a chain leaves the chain.
Chain-update :
    (flag : ℕ → ℕ) (a i v : ℕ) (xs : List ℕ)
    → count i xs ≡ 0
    → Chain flag a xs
    → Chain (update flag i v) a xs
Chain-update flag a i v [] h c = tt
Chain-update flag a i v (x ∷ xs) h c =
    let other : (x == i) ≡ false = ground arith in
    (c.0, rw other (Chain-update flag (flag x) i v xs (omega arith) c.1))

-- A fetch that hands out a slot, and what it leaves.
pub record Fetched (S : ℕ) (p : RapidPool) (r : Outcome (Option ℕ × RapidPool)) : Type 0 where
  pub slot : ℕ
  pub pool : RapidPool
  pub returns : r ≡ done (some slot, pool)
  pub valid : IsPool S pool
  pub below : slot < S
  pub was_free : p.in_use slot ≡ false
  pub marked : pool.in_use ≡ update p.in_use slot true
  pub left : p.free_count ≡ pool.free_count + 1
  pub same_index : pool.index ≡ p.index

module _ (ndebug : Bool) (S : ℕ) where
  -- Fetching from a pool with a free slot hands out a slot that was not in use and marks it.
  fetch_slot-cons :
      (p : RapidPool) (x : ℕ) (xs : List ℕ)
      → FreeList S p (x ∷ xs)
      → let p' = record p {
        first_flag = p.flag x;
        free_count = p.free_count - 1;
        in_use = update p.in_use x true;
      } in
        (fetch_slot ndebug S p ≡ done (some x, p'))
        × FreeList S p' xs
        × (x < S)
        × (p.in_use x ≡ false)
  unfolding fetch_slot
  fetch_slot-cons p x xs v =
      let inx : x < S = v.inside x (ground arith) in
      let unused : p.in_use x ≡ false = ground (arith, v.exclusive x inx) in
      let few : p.free_count ≤ S = omega (arith, v.total) in
      (
        ground (arith, v.indexed x inx),
        record {
          chain = v.chain.1;
          counted = omega arith;
          inside = λ i h. v.inside i (omega arith);
          exclusive = λ i h. ground (arith, v.exclusive i h);
          total = ground (arith, marks_below-update S p.in_use x true inx);
          indexed = v.indexed;
        },
        inx,
        unused,
      )

  fetch_slot-empty : (p : RapidPool) → FreeList S p [] → fetch_slot ndebug S p ≡ done (none, p)
  unfolding fetch_slot
  fetch_slot-empty p v = ground arith

  -- Releasing a slot that is in use puts it in front of the free list.
  release_slot-cons :
      (p : RapidPool) (x : ℕ) (xs : List ℕ)
      → FreeList S p xs
      → x < S
      → p.in_use x ≡ true
      → let p' = record p {
        flag = update p.flag x p.first_flag;
        first_flag = x;
        free_count = p.free_count + 1;
        in_use = update p.in_use x false;
      } in
        (release_slot ndebug S x p ≡ done p') × FreeList S p' (x ∷ xs)
  unfolding release_slot
  release_slot-cons p x xs v inx used =
      let off : count x xs ≡ 0 = ground (arith, v.exclusive x inx) in
      let total = marks_below-update S p.in_use x false inx in
      (
        ground (arith, v.indexed x inx, v.total, total),
        record {
          chain = (
            refl,
            rw (==_self x) (Chain-update p.flag p.first_flag x p.first_flag xs off v.chain),
          );
          counted = omega arith;
          inside = λ i h. ground (arith, v.inside i);
          exclusive = λ i h. ground (arith, v.exclusive i h);
          total = ground (arith, total);
          indexed = v.indexed;
        },
      )

  fetch_cases :
      (p : RapidPool) (free : List ℕ)
      → FreeList S p free
      → ((p.free_count ≡ 0) × (fetch_slot ndebug S p ≡ done (none, p)))
        ⊎ Fetched S p (fetch_slot ndebug S p)
  fetch_cases p [] v = inl (omega arith, fetch_slot-empty p v)
  fetch_cases p (x ∷ xs) v =
      let (e, v', inx, unused) = fetch_slot-cons p x xs v in
      inr (record {
        slot = x;
        pool = _;
        returns = e;
        valid = record { free = xs; free_list = v' };
        below = inx;
        was_free = unused;
        marked = refl;
        left = omega arith;
        same_index = refl;
      })

  -- `FetchObj` of a valid pool never stops at an assertion. Without a free slot it returns null and
  -- changes nothing; otherwise it hands out a slot below `S` that was free, marks exactly that
  -- slot, counts one free slot less, and the pool is valid again.
  pub fetch_slot-IsPool :
      (p : RapidPool)
      → IsPool S p
      → ((p.free_count ≡ 0) × (fetch_slot ndebug S p ≡ done (none, p)))
        ⊎ Fetched S p (fetch_slot ndebug S p)
  fetch_slot-IsPool p v = fetch_cases p v.free v.free_list

  -- `ReleaseObj` of a slot below `S` that is in use, in a valid pool, never stops at an assertion:
  -- it unmarks exactly that slot, counts one free slot more, keeps the number of the pool, and the
  -- pool is valid again.
  pub release_slot-IsPool :
      (p : RapidPool) (x : ℕ)
      → IsPool S p
      → x < S
      → p.in_use x ≡ true
      → (p' : RapidPool) × (release_slot ndebug S x p ≡ done p')
        × IsPool S p'
        × (p'.in_use ≡ update p.in_use x false)
        × (p'.free_count ≡ p.free_count + 1)
        × (p'.index ≡ p.index)
  release_slot-IsPool p x v inx used =
      let (e, v') = release_slot-cons p x v.free v.free_list inx used in
      (_, e, record { free = x ∷ v.free; free_list = v' }, refl, refl, refl)

-- The `n` slots from `i` on.
abbrev from_to : ℕ → ℕ → List ℕ
from_to i zero = []
from_to i (suc n) = i ∷ from_to (i + 1) n

-- The free list of a new pool: every slot, in order.
count-from_to : (j i n : ℕ) → count j (from_to i n) ≡ (if leb i j && ltb j (i + n) then 1 else 0)
count-from_to j i zero = ground arith
count-from_to j i (suc n) = ground (arith, count-from_to j (i + 1) n)

length-from_to : (i n : ℕ) → length (from_to i n) ≡ n
length-from_to i zero = refl
length-from_to i (suc n) = ap suc (length-from_to (i + 1) n)

Chain-from_to : (i n : ℕ) → i + n < 2 ^ 16 → Chain (λ j. (j + 1) % 2 ^ 16) i (from_to i n)
Chain-from_to i zero h = tt
Chain-from_to i (suc n) h =
    let next : (i + 1) % 2 ^ 16 ≡ i + 1 = omega arith in
    (refl, rw next (Chain-from_to (i + 1) n (omega arith)))

-- A new pool is valid and has all its slots free, if its size fits the 16 bits of a flag and its
-- number the 15 bits of an index.
pub make_pool-IsPool :
    (S index : ℕ)
    → S < 2 ^ 16
    → index < 2 ^ 15
    → IsPool S (make_pool S index) × ((make_pool S index).free_count ≡ S)
unfolding make_pool
make_pool-IsPool S index h k = (
  record {
    free = from_to 0 S;
    free_list = record {
      chain = Chain-from_to 0 S (omega arith);
      counted = sym (length-from_to 0 S);
      inside = λ i c. ground (arith, count-from_to i 0 S);
      exclusive = λ i c. ground (arith, count-from_to i 0 S);
      total = omega (arith, marks_below-none S);
      indexed = λ i c. omega arith;
    };
  },
  refl,
)
