-- ===== src/Singleton/Tests.antt =====
-- Runs of the frame with the types 1 and 2.
use dmtimer.Base.{
  Bool-cases, ==→eq, sym, inl, inr, arith, ltb, undefined, ◌∙◌, ℕ, ◌≡◌, refl, true, false, none,
  some, [], ◌∷◌, ◌++◌, ◌==◌, done, stopped, aborted, Returns, if◌then◌else◌,
}
use mathlib.Core.Bool.{false≢true}
use mathlib.Core.Option.{none-ne-some, some-injective}
use dmtimer.Singleton.{
  Singletons, create, add_singleton, call_all, init_all, un_init_all, release_all, is_there,
  destroy, release,
}
use dmtimer.Singleton.Frame.{
  IsFrame, has_entry, count_type, add_singleton-IsFrame, release-instances,
}

abbrev nothing : Singletons
nothing = record { instances = λ t. none; list = [] }

nothing-IsFrame : IsFrame nothing
nothing-IsFrame = record {
  listed = λ t p h. absurd (false≢true h);
  apart = λ t t' p h k. absurd (none-ne-some _ h);
}

add_singleton-IsFrame_example :
    Returns
      (λ (s' : Singletons).
        IsFrame s' × ((p : ℕ) × (s'.list ≡ [] ++ (1, p) ∷ []) × (s'.instances 1 ≡ some p)))
      (add_singleton false 1 100 nothing)
add_singleton-IsFrame_example =
    add_singleton-IsFrame false 1 100 nothing nothing-IsFrame refl (λ t' h. none-ne-some _ h)

-- two objects, of the types 1 and 2
abbrev two : Singletons
two = record {
  instances = λ t. if t == 1 then some 100 else if t == 2 then some 200 else none;
  list = (1, 100) ∷ (2, 200) ∷ [];
}

two-listed : (t p : ℕ) → has_entry t p two.list ≡ true → two.instances t ≡ some p
two-listed t p h = elim (Bool-cases (1 == t)) [
  | inl e ↦ let first : p ≡ 100 = ground (arith, e, h) in rw (sym (==→eq 1 t e), first) refl
  | inr n ↦
      let (second, object) : (2 ≡ t) × (p ≡ 200) = (ground (arith, n, h), ground (arith, n, h)) in
      rw (sym second, object) refl
]

type_at : (t p : ℕ) → two.instances t ≡ some p → t ≡ (if p == 100 then 1 else 2)
type_at t p h = elim (Bool-cases (t == 1)) [
  | inl e ↦ let object : 100 ≡ p = some-injective _ _ (rw e at h) in rw (← object) (==→eq t 1 e)
  | inr n ↦ elim (Bool-cases (t == 2)) [
    | inl e ↦
        let object : 200 ≡ p = some-injective _ _ (rw (n, e) at h) in rw (← object) (==→eq t 2 e)
    | inr m ↦ absurd (none-ne-some _ (rw (n, m) at h))
  ]
]

two-apart : (t t' p : ℕ) → two.instances t ≡ some p → two.instances t' ≡ some p → t ≡ t'
two-apart t t' p h k = type_at t p h ∙ sym (type_at t' p k)

two-IsFrame : IsFrame two
two-IsFrame = record { listed = two-listed; apart = two-apart }

release-instances_example :
    Returns
      (λ (s' : Singletons).
        (s'.list ≡ [])
        × ((t : ℕ)
            → s'.instances t ≡ (if ltb 0 (count_type t two.list) then none else two.instances t)))
      (release two)
release-instances_example = release-instances two two-IsFrame (λ t. ground arith)

-- `Release` after the object of type 1 was destroyed
dangling : release (destroy 1 two) ≡ stopped undefined
unfolding release release_all is_there destroy
dangling = refl

-- A second `AddSingleton` of a type fails its assertion.
twice : add_singleton false 1 300 two ≡ stopped aborted
unfolding add_singleton create
twice = refl

-- `UnInit` calls the objects from behind.
order :
    (init_all false (λ e. true) two ≡ done ((1, 100) ∷ (2, 200) ∷ []))
    × (un_init_all false (λ e. true) two ≡ done ((2, 200) ∷ (1, 100) ∷ []))
unfolding init_all un_init_all call_all is_there
order = (refl, refl)
