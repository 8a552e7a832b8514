-- ===== src/RapidPool/Tests.antt =====
-- The theorems on the pools at concrete pools of two slots.
use dmtimer.Base.{
  ℕ, ◌≡◌, ◌⊎◌, refl, false, Option, none, arith, Outcome, done, stopped, inl, inr, assert, ap,
}
use dmtimer.RapidPool.{
  RapidPool, DynamicRapidPool, make_pool, make_dynamic_pool, is_live, is_empty, fetch_slot,
  fetch_obj, located, put_default, array_of, release_obj,
}
use dmtimer.RapidPool.Slots.{IsPool, fetch_slot-IsPool, make_pool-IsPool}
use dmtimer.RapidPool.Dynamic.{
  IsDynamic, Obtained, Released, IsExhausted, fetch_obj-IsDynamic, release_obj-IsDynamic,
  make_dynamic_pool-IsDynamic,
}

-- the state after a call, or a new pool
abbrev pool_after : Outcome (Option ℕ × RapidPool) → RapidPool
pool_after (done (o, p)) = p
pool_after (stopped r) = make_pool 2 0

abbrev pools_after : Outcome (Option ℕ × DynamicRapidPool) → DynamicRapidPool
pools_after (done (o, d)) = d
pools_after (stopped r) = make_dynamic_pool 2

abbrev two_slots : RapidPool
two_slots = make_pool 2 0

abbrev one_used : RapidPool
one_used = pool_after (fetch_slot false 2 two_slots)

two_slots-IsPool : IsPool 2 two_slots
two_slots-IsPool = (make_pool-IsPool 2 0 (omega arith) (omega arith)).0

one_used-IsPool : IsPool 2 one_used
unfolding make_pool
one_used-IsPool = elim (fetch_slot-IsPool false 2 two_slots two_slots-IsPool) [
  | inl (none_free, e) ↦ absurd (omega (arith, none_free))
  | inr f ↦ rw (ap pool_after f.returns) f.valid
]

-- the pools of two arrays of two slots each
abbrev pools : DynamicRapidPool
pools = make_dynamic_pool 2

abbrev pools_one_live : DynamicRapidPool
pools_one_live = pools_after (fetch_obj false 2 1 pools)

pools-IsDynamic : IsDynamic 2 1 pools
pools-IsDynamic = (make_dynamic_pool-IsDynamic 2 1 (omega arith) (omega arith) (omega arith)).0

fetch_obj-IsDynamic_example :
    (IsExhausted 1 pools × (fetch_obj false 2 1 pools ≡ assert false false (done (none, pools))))
    ⊎ Obtained 2 1 pools (fetch_obj false 2 1 pools)
fetch_obj-IsDynamic_example = fetch_obj-IsDynamic false pools pools-IsDynamic

pools_one_live-IsDynamic : IsDynamic 2 1 pools_one_live
unfolding make_pool make_dynamic_pool array_of
pools_one_live-IsDynamic = elim (fetch_obj-IsDynamic false pools pools-IsDynamic) [
  | inl (full, e) ↦ let (p, same, none_free) = full 1 (omega arith) in cc
  | inr f ↦ rw (ap pools_after f.returns) f.valid
]

release_obj-IsDynamic_example :
    Released 2 1 pools_one_live 0 (release_obj false 2 1 0 pools_one_live)
unfolding make_dynamic_pool fetch_obj is_empty make_pool fetch_slot located put_default is_live
    array_of
release_obj-IsDynamic_example =
    release_obj-IsDynamic false 0 pools_one_live pools_one_live-IsDynamic refl
