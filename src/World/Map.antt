-- ===== src/World/Map.antt =====
-- `std::map<uint64_t, CDMTimerElement*>`: the pairs in the order of the keys.
use mathlib.Core.Bool.{false≢true}
use mathlib.Core.Option.{none-ne-some, some-injective}
use dmtimer.Base.{
  ℕ, ◌≡◌, refl, true, false, Option, none, some, List, [], ◌∷◌, ltb, ◌==◌, if◌then◌else◌, arith,
  Bool-cases, inl, inr, ==_self, ==→eq, ◌||◌, Bool, sym, ◌∙◌,
}

abbrev pub TimerElementMap : Type 0
TimerElementMap = List (ℕ × ℕ)

-- `find`
unfoldable pub find : ℕ → TimerElementMap → Option ℕ
find k [] = none
find k ((j, p) ∷ m) = if j == k then some p else find k m

-- `m[k] = p`
unfoldable pub insert : ℕ → ℕ → TimerElementMap → TimerElementMap
insert k p [] = (k, p) ∷ []
insert k p ((j, q) ∷ m) =
    if j == k then (k, p) ∷ m else if ltb k j then (k, p) ∷ (j, q) ∷ m else (j, q) ∷ insert k p m

-- `erase`
unfoldable pub erase : ℕ → TimerElementMap → TimerElementMap
erase k [] = []
erase k ((j, q) ∷ m) = if j == k then m else (j, q) ∷ erase k m

-- the keys are increasing
abbrev pub IsAbove : ℕ → TimerElementMap → Type 0
IsAbove k [] = Unit {0}
IsAbove k ((j, q) ∷ m) = (ltb k j ≡ true) × IsAbove j m

abbrev pub IsSorted : TimerElementMap → Type 0
IsSorted [] = Unit {0}
IsSorted ((j, q) ∷ m) = IsAbove j m

find_above : (k j : ℕ) (m : TimerElementMap) → IsAbove j m → ltb j k ≡ false → find k m ≡ none
unfolding find
find_above k j [] s h = refl
find_above k j ((i, q) ∷ m) s h = ground (arith, find_above k i m)

-- After `m[k] = p`, looking up `k` finds `p`, and any other key finds what it found before.
pub find-insert :
    (k i p : ℕ) (m : TimerElementMap)
    → find i (insert k p m) ≡ (if k == i then some p else find i m)
unfolding find insert
find-insert k i p [] = refl
find-insert k i p ((j, q) ∷ m) = ground (arith, find-insert k i p m)

find-erase_above :
    (k i j : ℕ) (m : TimerElementMap)
    → IsAbove j m
    → find i (erase k m) ≡ (if k == i then none else find i m)
unfolding find erase
find-erase_above k i j [] s = ground arith
find-erase_above k i j ((n, q) ∷ m) s =
    ground (arith, find-erase_above k i n m, find_above i n m s.1)

-- After `erase` of a key in a sorted map, looking up this key fails, and any other key finds what
-- it found before.
pub find-erase :
    (k i : ℕ) (m : TimerElementMap)
    → IsSorted m
    → find i (erase k m) ≡ (if k == i then none else find i m)
unfolding find erase
find-erase k i [] s = ground arith
find-erase k i ((j, q) ∷ m) s = ground (arith, find-erase_above k i j m s, find_above i j m s)

insert-IsAbove :
    (i k p : ℕ) (m : TimerElementMap) → IsAbove i m → ltb i k ≡ true → IsAbove i (insert k p m)
unfolding insert
insert-IsAbove i k p [] s h = (h, tt)
insert-IsAbove i k p ((j, q) ∷ m) s h = ground (arith, insert-IsAbove j k p m s.1)

-- `m[k] = p` keeps the keys of the map increasing.
pub insert-IsSorted : (k p : ℕ) (m : TimerElementMap) → IsSorted m → IsSorted (insert k p m)
unfolding insert
insert-IsSorted k p [] s = tt
insert-IsSorted k p ((j, q) ∷ m) s = ground (arith, insert-IsAbove j k p m s)

IsAbove-trans : (i j : ℕ) (m : TimerElementMap) → ltb i j ≡ true → IsAbove j m → IsAbove i m
IsAbove-trans i j [] h s = tt
IsAbove-trans i j ((k, q) ∷ m) h s = (ground (arith, h, s.0), s.1)

erase-IsAbove : (i k : ℕ) (m : TimerElementMap) → IsAbove i m → IsAbove i (erase k m)
unfolding erase
erase-IsAbove i k [] s = tt
erase-IsAbove i k ((j, q) ∷ m) s = elim (Bool-cases (j == k)) [
  | inl e ↦ rw (e, erase) (IsAbove-trans i j m s.0 s.1)
  | inr e ↦ rw (e, erase) (s.0, erase-IsAbove j k m s.1)
]

tail-IsSorted : (j : ℕ) (m : TimerElementMap) → IsAbove j m → IsSorted m
tail-IsSorted j [] s = tt
tail-IsSorted j ((i, q) ∷ m) s = s.1

-- `erase` keeps the keys of the map increasing.
pub erase-IsSorted : (k : ℕ) (m : TimerElementMap) → IsSorted m → IsSorted (erase k m)
unfolding erase
erase-IsSorted k [] s = tt
erase-IsSorted k ((j, q) ∷ m) s = elim (Bool-cases (j == k)) [
  | inl e ↦ rw (e, erase) (tail-IsSorted j m s)
  | inr e ↦ rw (e, erase) (erase-IsAbove j k m s)
]

-- whether a map has the element
unfoldable pub has : ℕ → TimerElementMap → Bool
has q [] = false
has q ((i, p) ∷ m) = (q == p) || has q m

pub find-nil : (i q : ℕ) → ¬ (find i [] ≡ some q)
unfolding find
find-nil i q e = none-ne-some _ e

pub has-find : (i q : ℕ) (m : TimerElementMap) → find i m ≡ some q → has q m ≡ true
unfolding find has
has-find i q [] e = absurd (none-ne-some _ e)
has-find i q ((j, p) ∷ m) e = elim (Bool-cases (j == i)) [
  | inl eq ↦ rw (some-injective _ _ (rw eq at e), ==_self q) refl
  | inr ne ↦ ground (arith, has-find i q m (rw ne at e))
]

pub find-has :
    (q : ℕ) (m : TimerElementMap) → IsSorted m → has q m ≡ true → (i : ℕ) × (find i m ≡ some q)
unfolding find has
find-has q [] s h = absurd (false≢true h)
find-has q ((j, p) ∷ m) s h = elim (Bool-cases (q == p)) [
  | inl e ↦ (j, rw (==_self j, ==→eq q p e) refl)
  | inr ne ↦
      let (i, f) = find-has q m (tail-IsSorted j m s) (rw ne at h) in
      (
        i,
        elim (Bool-cases (j == i)) [
          | inr other ↦ rw other f
          | inl same ↦ absurd (none-ne-some _ (sym (find_above i j m s (ground (arith, same))) ∙ f))
        ],
      )
]
