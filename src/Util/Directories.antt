-- ===== src/Util/Directories.antt =====
-- `DMCreateDirectories` of include/dmutil.h on a system whose calls do what POSIX says.
use mathlib.Core.Path.{subst}
use dmtimer.Base.{
  ℕ, zero, suc, Returns-value, ◌<◌, ◌≡◌, ◌≢◌, refl, sym, inl, inr, ◌⊎◌, Bool, true, false, none,
  some, List, [], ◌∷◌, ◌++◌, leb, length, length-append, arith, count, Option-cases, done, Returns,
  returns,
}
use dmtimer.Util.{
  FileSystem, max_path, path_delimiter, cut_last, is_directory, create_directory,
  create_directories,
}
use dmtimer.Util.Paths.{cut_last-none, cut_last-append}

-- the name of a file in its directory, neither "." nor ".."
pub record IsName (name : List ℕ) : Type 0 where
  pub long : 0 < length name
  pub flat : count path_delimiter name ≡ 0
  pub proper : (name ≢ 46 ∷ []) × (name ≢ 46 ∷ 46 ∷ [])

-- `may_make` is true of a path if nothing but a missing parent stands against a directory there: no permission, no
-- want of space, no limit on the length of names, and no link that leads nowhere.
module _ (F : FileSystem) (may_make : F.State → List ℕ → Bool) where
  -- the directory of this path can be made: its parent is there
  pub data HasParent (s : F.State) : List ℕ → Type 0 where
    relative : {name : List ℕ} → IsName name → HasParent s name
    rooted : {name : List ℕ} → IsName name → HasParent s (path_delimiter ∷ name)
    inside :
        {dir name : List ℕ}
        → F.stat s dir ≡ some true
        → IsName name
        → HasParent s (dir ++ path_delimiter ∷ name)

  -- Nothing but names is on the path, no part of it is a file that is no directory, and every part of it that is
  -- missing may be made.
  pub data IsOpen (s : F.State) : List ℕ → Type 0 where
    relative :
        {name : List ℕ}
        → IsName name
        → F.stat s name ≢ some false
        → may_make s name ≡ true
        → IsOpen s name
    rooted :
        {name : List ℕ}
        → IsName name
        → F.stat s (path_delimiter ∷ name) ≢ some false
        → may_make s (path_delimiter ∷ name) ≡ true
        → IsOpen s (path_delimiter ∷ name)
    below :
        {dir name : List ℕ}
        → IsOpen s dir
        → IsName name
        → F.stat s (dir ++ path_delimiter ∷ name) ≢ some false
        → may_make s (dir ++ path_delimiter ∷ name) ≡ true
        → IsOpen s (dir ++ path_delimiter ∷ name)

  -- what POSIX says of the calls, while no one else changes the files
  pub record IsPosix : Type 0 where
    pub accessible :
        (s : F.State) (p : List ℕ) (d : Bool) → F.stat s p ≡ some d → F.access s p ≡ true
    pub missing : (s : F.State) (p : List ℕ) → F.stat s p ≡ none → F.access s p ≡ false
    pub no_name : (s : F.State) → (F.stat s [] ≡ none) × (F.mkdir s [] ≡ (false, s))
    pub makes :
        (s : F.State) (p : List ℕ)
        → HasParent s p
        → F.stat s p ≡ none
        → may_make s p ≡ true
        → ((F.mkdir s p).0 ≡ true) × (F.stat (F.mkdir s p).1 p ≡ some true)
    -- the new directory is empty
    pub fresh :
        (s : F.State) (p name : List ℕ)
        → HasParent s p
        → F.stat s p ≡ none
        → may_make s p ≡ true
        → IsName name
        → F.stat (F.mkdir s p).1 (p ++ path_delimiter ∷ name) ≡ none
    -- one directory more stands against no other
    pub spares :
        (s : F.State) (p q : List ℕ) → may_make s q ≡ true → may_make (F.mkdir s p).1 q ≡ true

  -- a call that has made the directory `p`, or found it
  pub record IsMade (s : F.State) (p : List ℕ) (r : Bool × F.State) : Type 0 where
    pub success : r.0 ≡ true
    pub there : F.stat r.1 p ≡ some true
    pub kept :
        (r.1 ≡ s) ⊎ ((name : List ℕ) → IsName name → F.stat r.1 (p ++ path_delimiter ∷ name) ≡ none)
    pub spared : (q : List ℕ) → may_make s q ≡ true → may_make r.1 q ≡ true

  module _ (posix : IsPosix) where
    mkdir-IsMade :
        (s s0 : F.State) (p : List ℕ)
        → HasParent s p
        → F.stat s p ≡ none
        → may_make s p ≡ true
        → ((q : List ℕ) → may_make s0 q ≡ true → may_make s q ≡ true)
        → IsMade s0 p (F.mkdir s p)
    mkdir-IsMade s s0 p parent new may spared =
        let (success, there) = posix.makes s p parent new may in
        record {
          success = success;
          there = there;
          kept = inr λ name n. posix.fresh s p name parent new may n;
          spared = λ q h. posix.spares s p q (spared q h);
        }

    -- a path that is there
    found-IsMade :
        (fuel : ℕ) (s : F.State) (p : List ℕ)
        → F.stat s p ≡ some true
        → Returns (IsMade s p) (create_directories F (suc fuel) p s)
    unfolding create_directories is_directory
    found-IsMade fuel s p e =
        rw (posix.accessible s p true e, e, is_directory)
          (returns (record { success = refl; there = e; kept = inl refl; spared = λ q h. h }))

    -- If no file is at the path, the directory is there, or `mkdir` is reached.
    by_presence :
        (fuel : ℕ) (s : F.State) (p : List ℕ)
        → F.stat s p ≢ some false
        → (F.stat s p ≡ none → Returns (IsMade s p) (create_directories F (suc fuel) p s))
        → Returns (IsMade s p) (create_directories F (suc fuel) p s)
    by_presence fuel s p no_file new = elim (Option-cases (F.stat s p)) [
      | inl e ↦ new e
      | inr (true, e) ↦ found-IsMade fuel s p e
      | inr (false, e) ↦ elim (no_file e) [ ]
    ]

    unfits : (p : List ℕ) → length p < max_path → leb max_path (length p) ≡ false
    unfits p h = ground (arith, h)

    -- a name without a delimiter
    relative-IsMade :
        (fuel : ℕ) (s : F.State) (name : List ℕ)
        → IsName name
        → F.stat s name ≡ none
        → may_make s name ≡ true
        → length name < max_path
        → Returns (IsMade s name) (create_directories F (suc fuel) name s)
    unfolding create_directories create_directory
    relative-IsMade fuel s name n new may short =
        rw (posix.missing s name new, unfits name short, cut_last-none path_delimiter name n.flat)
          (returns (mkdir-IsMade s s name (relative n) new may λ q h. h))

    -- the last `mkdir` in the state that the call for the parent leaves
    behind-IsMade :
        (fuel : ℕ) (s s1 : F.State) (dir name : List ℕ) (b : Bool)
        → IsName name
        → F.stat s (dir ++ path_delimiter ∷ name) ≡ none
        → may_make s (dir ++ path_delimiter ∷ name) ≡ true
        → ((q : List ℕ) → may_make s q ≡ true → may_make s1 q ≡ true)
        → length (dir ++ path_delimiter ∷ name) < max_path
        → create_directories F fuel dir s ≡ done (b, s1)
        → HasParent s1 (dir ++ path_delimiter ∷ name)
        → F.stat s1 (dir ++ path_delimiter ∷ name) ≡ none
        → Returns
            (IsMade s (dir ++ path_delimiter ∷ name))
            (create_directories F (suc fuel) (dir ++ path_delimiter ∷ name) s)
    unfolding create_directories create_directory
    behind-IsMade fuel s s1 dir name b n new may spared short made parent new1 =
        rw
          (
            posix.missing s (dir ++ path_delimiter ∷ name) new,
            unfits (dir ++ path_delimiter ∷ name) short,
            cut_last-append path_delimiter dir name n.flat,
            made,
          )
          (returns (
            mkdir-IsMade s1 s (dir ++ path_delimiter ∷ name) parent new1
              (spared (dir ++ path_delimiter ∷ name) may) spared))

    -- no directory has the empty name
    empty-fails : (fuel : ℕ) (s : F.State) → create_directories F (suc fuel) [] s ≡ done (false, s)
    unfolding create_directories create_directory cut_last
    empty-fails fuel s = rw (posix.missing s [] (posix.no_name s).0, (posix.no_name s).1) refl

    predecessor : (n : ℕ) → 0 < n → (m : ℕ) × (n ≡ suc m)
    predecessor zero h = let bad : ⊥ = omega (arith, h) in elim bad [ ]
    predecessor (suc m) h = (m, refl)

    -- If the path is made of names other than "." and "..", with "/" between them and at most one
    -- before them, it is shorter than `MAX_PATH`, no part of it is a file that is no directory, and
    -- at no part of it does anything but a missing parent stand against a directory (`may_make`:
    -- permissions, space, the length of a name, a link that leads nowhere), then
    -- `DMCreateDirectories`, with fuel for the recursion above the length of the path, returns
    -- true, and the path is a directory. Either nothing was changed, or the directory is empty.
    -- This holds if the calls of the system do what POSIX says of them where `may_make` is true,
    -- and making one directory leaves it true elsewhere (`IsPosix`).
    pub create_directories-IsMade :
        (fuel : ℕ) (s : F.State) (p : List ℕ)
        → IsOpen s p
        → length p < max_path
        → length p < fuel
        → Returns (IsMade s p) (create_directories F fuel p s)
    create_directories-IsMade zero s p o short enough =
        let bad : ⊥ = omega (arith, enough) in elim bad [ ]
    create_directories-IsMade (suc fuel) s p (relative n no_file may) short enough =
        by_presence fuel s p no_file λ new. relative-IsMade fuel s p n new may short
    create_directories-IsMade (suc fuel) s p (rooted {name} n no_file may) short enough =
        by_presence fuel s p no_file λ new.
          let (less, e) = predecessor fuel (omega (arith, enough, n.long)) in
          behind-IsMade fuel s s [] name false n new may (λ q h. h) short
            (rw e (empty-fails less s)) (rooted n) new
    create_directories-IsMade (suc fuel) s p (below {dir} {name} above n no_file may) short enough =
        let long = length-append dir (path_delimiter ∷ name) in
        by_presence fuel s p no_file λ new.
          let ((b, s1), made, m) = Returns-value (
            create_directories-IsMade fuel s dir above (omega (arith, short, long))
              (omega (arith, enough, long))) in
          behind-IsMade fuel s s1 dir name b n new may m.spared short made (inside m.there n)
            (elim m.kept [
              | inl same ↦
                  subst (λ t. F.stat t (dir ++ path_delimiter ∷ name) ≡ none) (sym same) new
              | inr empty ↦ empty name n
            ])
