-- ===== src/Singleton/Local.antt =====
-- include/dmsingleton.h: `TSingleton<T>` and `CDMSafeSingleton<T>`, whose object is a local static variable. The
-- language constructs it when control first passes.
use dmtimer.Base.{ℕ, zero, suc, ◌+◌, ◌≡◌, refl, Bool, true, false, List, [], ◌∷◌, if◌then◌else◌}

-- `s_oT`: its address, whether it is constructed, and how often its constructor has run
pub record StaticObject : Type 0 where
  pub address : ℕ
  pub is_constructed : Bool
  pub constructions : ℕ

abbrev unused : ℕ → StaticObject
unused address = record { address = address; is_constructed = false; constructions = 0 }

-- `TSingleton<T>::Instance`
unfoldable pub instance_of : StaticObject → ℕ × StaticObject
instance_of s = (
  s.address,
  if s.is_constructed
      then s
      else record s { is_constructed = true; constructions = s.constructions + 1 },
)

-- `TSafeCreator()`, which runs before `main`
unfoldable pub safe_creator : StaticObject → StaticObject
safe_creator s = (instance_of s).1

-- `CDMSafeSingleton<T>::Instance`; `Do` does nothing
unfoldable pub safe_instance : StaticObject → ℕ × StaticObject
safe_instance s = instance_of s

-- `n` calls of `Instance`, and what they return
unfoldable pub safe_instances : ℕ → StaticObject → List ℕ × StaticObject
safe_instances zero s = ([], s)
safe_instances (suc n) s =
    let (p, s1) = safe_instance s in let (ps, s2) = safe_instances n s1 in (p ∷ ps, s2)

abbrev repeated : ℕ → ℕ → List ℕ
repeated zero p = []
repeated (suc n) p = p ∷ repeated n p

-- an object whose constructor has run `k` times
abbrev constructed : ℕ → ℕ → StaticObject
constructed address k = record { address = address; is_constructed = true; constructions = k }

-- After the creator has run, every call gives the same object, which is not constructed again.
safe_instances-constructed :
    (n address k : ℕ)
    → safe_instances n (constructed address k) ≡ (repeated n address, constructed address k)
unfolding safe_instances safe_instance instance_of
safe_instances-constructed zero address k = refl
safe_instances-constructed (suc n) address k = rw (safe_instances-constructed n address k) refl

-- The program runs the constructor once, before `main`.
safe_instances-once :
    (n address : ℕ)
    → safe_instances n (safe_creator (unused address)) ≡ (repeated n address, constructed address 1)
unfolding safe_creator instance_of
safe_instances-once n address = safe_instances-constructed n address 1
