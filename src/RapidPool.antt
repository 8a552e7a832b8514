-- ===== src/RapidPool.antt =====
-- include/dmrapidpool.h: `CDMRapidPool`, an array of slots with a free list threaded through it, and
-- `CDynamicRapidPool`, which adds such arrays when the first is used up.
pub mod Slots
pub mod Addresses
pub mod Dynamic
mod Tests
use dmtimer.Base.{
  ℕ, zero, suc, ◌+◌, ◌-◌, ◌*◌, ◌/◌, ◌%◌, ◌^◌, Bool, true, false, not, ◌&&◌, Option, none, some, leb,
  ltb, ◌==◌, if◌then◌else◌, update, Outcome, done, stopped, aborted, assert, ◌>>=◌,
}

-- `CDMRapidPool`: `m_wIndex`, `m_wFirstFlag`, `m_nFreeCount` and, slot by slot, the bit fields
-- `dwUse`, `dwIndex` and `dwFlag` of `m_stRapidData`.
pub record RapidPool : Type 0 where
  pub index : ℕ
  pub first_flag : ℕ
  pub free_count : ℕ
  pub in_use : ℕ → Bool
  pub slot_index : ℕ → ℕ
  pub flag : ℕ → ℕ

-- `CDynamicRapidPool`
pub record DynamicRapidPool : Type 0 where
  pub default_pool : RapidPool
  pub grow_pool : ℕ → Option RapidPool

-- the constructor for `S` slots; the loop sets every slot below `S`
unfoldable pub make_pool : ℕ → ℕ → RapidPool
make_pool S index = record {
  index = index;
  first_flag = 0;
  free_count = S;
  in_use = λ _. false;
  slot_index = λ _. index % 2 ^ 15;
  flag = λ i. (i + 1) % 2 ^ 16;
}

-- `Empty`: no slot is free
unfoldable pub is_empty : RapidPool → Bool
is_empty p = p.free_count == 0

-- `IsFull`: all `S` slots are free
pub is_full : ℕ → RapidPool → Bool
is_full S p = p.free_count == S

unfoldable pub make_dynamic_pool : ℕ → DynamicRapidPool
make_dynamic_pool S = record { default_pool = make_pool S 0; grow_pool = λ _. none }

-- the array that holds the objects of pool `k`, if there is one
unfoldable pub array_of : ℕ → DynamicRapidPool → Option RapidPool
array_of zero d = some d.default_pool
array_of (suc k) d = d.grow_pool k

unfoldable pub put_grown : DynamicRapidPool → ℕ → RapidPool → DynamicRapidPool
put_grown d i p = record d { grow_pool = update d.grow_pool i (some p) }

unfoldable pub put_default : DynamicRapidPool → RapidPool → DynamicRapidPool
put_default d p = record d { default_pool = p }

-- An object's address: the number of its pool times `S`, plus its slot.
abbrev pub address : ℕ → ℕ → ℕ → ℕ
address S k i = k * S + i

-- the object of a fetched slot of pool `k`, and the pools with pool `k` put back
unfoldable pub located :
    ℕ → ℕ → (RapidPool → DynamicRapidPool) → Option ℕ × RapidPool → Option ℕ × DynamicRapidPool
located S k put (none, p) = (none, put p)
located S k put (some i, p) = (some (address S k i), put p)

-- the mark of a slot in an array that may not be there
abbrev pub in_use_at : Option RapidPool → ℕ → Bool
in_use_at none i = false
in_use_at (some p) i = p.in_use i

-- whether the object at an address is handed out
unfoldable pub is_live : ℕ → DynamicRapidPool → ℕ → Bool
is_live S d a = in_use_at (array_of (a / S) d) (a % S)

-- `S` is the template's size, `ndebug` whether assertions are compiled out.
module _ (ndebug : Bool) (S : ℕ) where
  -- `FetchObj`: the slot that is handed out
  unfoldable pub fetch_slot : RapidPool → Outcome (Option ℕ × RapidPool)
  fetch_slot p =
      if p.free_count == 0
      then done (none, p)
      else assert ndebug (ltb p.first_flag S) (
          if p.in_use p.first_flag
          then stopped aborted
          else assert ndebug (p.slot_index p.first_flag == p.index) (
              assert ndebug (leb (p.free_count - 1) S) (
                done (
                  some p.first_flag,
                  record p {
                    first_flag = p.flag p.first_flag;
                    free_count = p.free_count - 1;
                    in_use = update p.in_use p.first_flag true;
                  },
                ))))

  -- `ReleaseObj` of the object in a slot
  unfoldable pub release_slot : ℕ → RapidPool → Outcome RapidPool
  release_slot i p =
      if not (p.in_use i)
      then stopped aborted
      else assert ndebug (p.slot_index i == p.index) (
          assert ndebug (ltb i S) (
            assert ndebug (leb (p.free_count + 1) S) (
              done (record p {
                flag = update p.flag i p.first_flag;
                first_flag = i;
                free_count = p.free_count + 1;
                in_use = update p.in_use i false;
              }))))

  -- The loop over `m_arrGrowRapidPool` with `n` indices left, `i` the current one.
  unfoldable pub fetch_grown : ℕ → ℕ → DynamicRapidPool → Outcome (Option ℕ × DynamicRapidPool)
  fetch_grown zero i d = assert ndebug false (done (none, d))
  fetch_grown (suc n) i d = elim (d.grow_pool i) [
    | none ↦
        let p = make_pool S (suc i) in
        let d' = put_grown d i p in
        let rest = fetch_grown n (suc i) d' in
        if not (is_empty p)
        then (do r ← fetch_slot p; done (located S (suc i) (put_grown d i) r))
        else rest
    | some p ↦
        let rest = fetch_grown n (suc i) d in
        if not (is_empty p)
        then (do r ← fetch_slot p; done (located S (suc i) (put_grown d i) r))
        else rest
  ]

  module _ (I : ℕ) where
    -- `CDynamicRapidPool::FetchObj`
    unfoldable pub fetch_obj : DynamicRapidPool → Outcome (Option ℕ × DynamicRapidPool)
    fetch_obj d =
        if not (is_empty d.default_pool)
        then (do r ← fetch_slot d.default_pool; done (located S 0 (put_default d) r))
        else fetch_grown I 0 d

    -- The release in the array that `dwIndex` names. That the object lies in this array is what the
    -- assertion on the bounds of `p` tests.
    unfoldable pub release_in : ℕ → ℕ → DynamicRapidPool → ℕ → Outcome DynamicRapidPool
    release_in k i d zero =
        assert ndebug (k == 0) (do p ← release_slot i d.default_pool; done (put_default d p))
    release_in k i d (suc n) = assert ndebug (ltb (suc n) (I + 1)) (elim (d.grow_pool n) [
      | none ↦ stopped aborted
      | some p ↦ assert ndebug (k == suc n) (do p' ← release_slot i p; done (put_grown d n p'))
    ])

    -- `CDynamicRapidPool::ReleaseObj` of an object that is not null; an address in no array is none.
    unfoldable pub release_obj : ℕ → DynamicRapidPool → Outcome DynamicRapidPool
    release_obj a d = elim (array_of (a / S) d) [
      | none ↦ stopped aborted
      | some p ↦ release_in (a / S) (a % S) d (p.slot_index (a % S))
    ]
