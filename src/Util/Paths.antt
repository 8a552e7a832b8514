-- ===== src/Util/Paths.antt =====
-- The parts of a path, and of the path of the program.
use mathlib.Core.Option.{some-injective, none-ne-some}
use dmtimer.Base.{
  ==_self, ℕ, ◌<◌, ◌≡◌, refl, ap, sym, inl, inr, false, none, some, List, [], ◌∷◌, ◌++◌, leb, ◌==◌,
  length, arith, count, Bool-cases, Option-cases, ==→eq, Returns, returns,
}
use dmtimer.Util.{max_path, path_delimiter, cut_last, get_root_path, get_exe_path, get_exe_name}

-- A name without `c` is not cut.
pub cut_last-none : (c : ℕ) (s : List ℕ) → count c s ≡ 0 → cut_last c s ≡ none
unfolding cut_last
cut_last-none c [] h = refl
cut_last-none c (x ∷ s) h =
    let other : (x == c) ≡ false = ground (arith, h) in
    rw (cut_last-none c s (omega (arith, h)), other) refl

-- A path with a last part is cut before it.
pub cut_last-append :
    (c : ℕ) (before behind : List ℕ)
    → count c behind ≡ 0
    → cut_last c (before ++ c ∷ behind) ≡ some (before, behind)
unfolding cut_last
cut_last-append c [] behind h = rw (cut_last-none c behind h, ==_self c) refl
cut_last-append c (x ∷ before) behind h = rw (cut_last-append c before behind h) refl

-- `strrchr` misses nothing.
pub cut_last-missing : (c : ℕ) (s : List ℕ) → cut_last c s ≡ none → count c s ≡ 0
unfolding cut_last
cut_last-missing c [] e = refl
cut_last-missing c (x ∷ s) e = elim (Option-cases (cut_last c s)) [
  | inl nowhere ↦ elim (Bool-cases (x == c)) [
    | inl same ↦ elim (none-ne-some _ (sym (rw (nowhere, same) at e))) [ ]
    | inr other ↦ ground (arith, other, cut_last-missing c s nowhere)
  ]
  | inr ((before, behind), found) ↦ elim (none-ne-some _ (sym (rw found at e))) [ ]
]

-- The parts make up the path.
pub cut_last-parts :
    (c : ℕ) (s before behind : List ℕ)
    → cut_last c s ≡ some (before, behind)
    → (before ++ c ∷ behind ≡ s) × (count c behind ≡ 0)
unfolding cut_last
cut_last-parts c [] before behind e = elim (none-ne-some _ e) [ ]
cut_last-parts c (x ∷ s) before behind e = elim (Option-cases (cut_last c s)) [
  | inl nowhere ↦ elim (Bool-cases (x == c)) [
    | inl same ↦
        let eq = some-injective ([], s) (before, behind) (rw (nowhere, same) at e) in
        rw (sym (ap (λ t. t.0) eq), sym (ap (λ t. t.1) eq), ==→eq x c same)
          (refl, cut_last-missing c s nowhere)
    | inr other ↦ elim (none-ne-some _ (rw (nowhere, other) at e)) [ ]
  ]
  | inr ((before', behind'), found) ↦
      let eq = some-injective (x ∷ before', behind') (before, behind) (rw found at e) in
      let (parts, clean) = cut_last-parts c s before' behind' found in
      rw (sym (ap (λ t. t.0) eq), sym (ap (λ t. t.1) eq)) (ap (λ t. x ∷ t) parts, clean)
]

-- If the link of the program has a "/" and is shorter than `MAX_PATH`, then `DMGetExeName` returns
-- a name without "/", and the path of `DMGetRootPath`, a "/" and this name make up what
-- `DMGetExePath` gives.
pub get_exe_name-parts :
    (link : List ℕ)
    → 0 < count path_delimiter link
    → length link < max_path
    → Returns
        (λ (name : List ℕ).
          (get_root_path (some link) ++ path_delimiter ∷ name ≡ get_exe_path (some link))
          × (count path_delimiter name ≡ 0))
        (get_exe_name (some link))
unfolding get_exe_name get_root_path get_exe_path
get_exe_name-parts link named short = elim (Option-cases (cut_last path_delimiter link)) [
  | inl nowhere ↦
      let bad : ⊥ = omega (arith, named, cut_last-missing path_delimiter link nowhere) in
      elim bad [ ]
  | inr ((before, behind), found) ↦
      let fits : leb max_path (length link) ≡ false = ground (arith, short) in
      rw (fits, found) (returns (cut_last-parts path_delimiter link before behind found))
]
