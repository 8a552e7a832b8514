-- ===== src/Util/Tests.antt =====
-- The path of a program, and directories made in a system that keeps a list of them.
use mathlib.Core.Option.{none-ne-some, some-injective}
use mathlib.Core.Bool.{true≢false}
use dmtimer.Base.{
  leb, same_if, ℕ, ◌<◌, ◌≡◌, ◌≢◌, refl, ap, Bool, true, false, Option, none, some, List, [], ◌∷◌,
  ◌++◌, ◌==◌, ==_self, if◌then◌else◌, length, arith, count, done, Returns,
}
use dmtimer.Util.{
  FileSystem, path_delimiter, cut_last, create_directories, create_directory, is_directory,
  get_root_path, get_exe_path, get_exe_name,
}
use dmtimer.Util.Paths.{cut_last-none, cut_last-append, get_exe_name-parts}
use dmtimer.Util.Directories.{
  IsName, IsPosix, IsOpen, IsMade, HasParent, relative, rooted, inside, below,
  create_directories-IsMade,
}

-- "/opt/app"
abbrev link : List ℕ
link = 47 ∷ 111 ∷ 112 ∷ 116 ∷ 47 ∷ 97 ∷ 112 ∷ 112 ∷ []

root_path : get_root_path (some link) ≡ 47 ∷ 111 ∷ 112 ∷ 116 ∷ []
unfolding get_root_path cut_last
root_path = refl

exe_name : get_exe_name (some link) ≡ done (97 ∷ 112 ∷ 112 ∷ [])
unfolding get_exe_name cut_last
exe_name = refl

get_exe_name-parts_example :
    Returns
      (λ (name : List ℕ).
        (get_root_path (some link) ++ path_delimiter ∷ name ≡ get_exe_path (some link))
        × (count path_delimiter name ≡ 0))
      (get_exe_name (some link))
get_exe_name-parts_example = get_exe_name-parts link (omega arith) (omega arith)

abbrev same : List ℕ → List ℕ → Bool
same [] [] = true
same [] (y ∷ q) = false
same (x ∷ p) [] = false
same (x ∷ p) (y ∷ q) = if x == y then same p q else false

-- `q` is below the directory `p`.
abbrev is_under : List ℕ → List ℕ → Bool
is_under [] [] = false
is_under [] (y ∷ q) = y == path_delimiter
is_under (x ∷ p) [] = false
is_under (x ∷ p) (y ∷ q) = if x == y then is_under p q else false

abbrev is_nameless : List ℕ → Bool
is_nameless [] = true
is_nameless (x ∷ p) = false

-- The last directory that was made is the first of the list.
abbrev look : List (List ℕ) → List ℕ → Option Bool
look [] q = none
look (p ∷ made) q = if same p q then some true else if is_under p q then none else look made q

abbrev stat : List (List ℕ) → List ℕ → Option Bool
stat made q = if is_nameless q then none else look made q

abbrev is_there : Option Bool → Bool
is_there none = false
is_there (some d) = true

abbrev has_parent : List (List ℕ) → Option (List ℕ × List ℕ) → Bool
has_parent made none = true
has_parent made (some (dir, name)) = if is_nameless dir then true else is_there (stat made dir)

abbrev mkdir : List (List ℕ) → List ℕ → Bool × List (List ℕ)
mkdir made p =
    if is_nameless p
    then (false, made)
    else if is_there (stat made p)
    then (false, made)
    else if has_parent made (cut_last path_delimiter p)
    then (true, p ∷ made)
    else (false, made)

abbrev memory : FileSystem
memory = record {
  State = List (List ℕ);
  access = λ made p. is_there (stat made p);
  stat = stat;
  mkdir = mkdir;
  chdir = λ made p. (is_there (stat made p), made);
}

-- no name of more than 255 bytes, if no path is longer
abbrev may_make : List (List ℕ) → List ℕ → Bool
may_make made p = leb (length p) 255

same_self : (p : List ℕ) → same p p ≡ true
same_self [] = refl
same_self (x ∷ p) = rw (==_self x) (same_self p)

same-below : (p name : List ℕ) → same p (p ++ path_delimiter ∷ name) ≡ false
same-below [] name = refl
same-below (x ∷ p) name = rw (==_self x) (same-below p name)

is_under-below : (p name : List ℕ) → is_under p (p ++ path_delimiter ∷ name) ≡ true
is_under-below [] name = refl
is_under-below (x ∷ p) name = rw (==_self x) (is_under-below p name)

is_nameless-below : (p name : List ℕ) → is_nameless (p ++ path_delimiter ∷ name) ≡ false
is_nameless-below [] name = refl
is_nameless-below (x ∷ p) name = refl

named : (p : List ℕ) → 0 < length p → is_nameless p ≡ false
named [] h = let bad : ⊥ = omega (arith, h) in elim bad [ ]
named (x ∷ p) h = refl

HasParent-named :
    (made : List (List ℕ)) (p : List ℕ) → HasParent memory may_make made p → is_nameless p ≡ false
HasParent-named made p (relative n) = named p n.long
HasParent-named made p (rooted n) = refl
HasParent-named made p (inside {dir} {name} there n) = is_nameless-below dir name

HasParent-found :
    (made : List (List ℕ)) (p : List ℕ)
    → HasParent memory may_make made p
    → has_parent made (cut_last path_delimiter p) ≡ true
HasParent-found made p (relative n) = rw (cut_last-none path_delimiter p n.flat) refl
HasParent-found made p (rooted {name} n) = rw (cut_last-append path_delimiter [] name n.flat) refl
HasParent-found made p (inside {dir} {name} there n) =
    rw (cut_last-append path_delimiter dir name n.flat, there) (same_if (is_nameless dir) true)

mkdir-makes :
    (made : List (List ℕ)) (p : List ℕ)
    → HasParent memory may_make made p
    → stat made p ≡ none
    → mkdir made p ≡ (true, p ∷ made)
mkdir-makes made p parent new =
    rw (new, HasParent-named made p parent, HasParent-found made p parent) refl

memory-IsPosix : IsPosix memory may_make
memory-IsPosix = record {
  accessible = λ made p d e. ap is_there e;
  missing = λ made p e. ap is_there e;
  no_name = λ made. (refl, refl);
  makes = λ made p parent new may.
      rw (mkdir-makes made p parent new, HasParent-named made p parent, same_self p) (refl, refl);
  spares = λ made p q h. h;
  fresh = λ made p name parent new may n.
      rw
        (
          mkdir-makes made p parent new,
          is_nameless-below p name,
          same-below p name,
          is_under-below p name,
        )
        refl;
}

-- "a", and "a/b/c" below it
abbrev start : List (List ℕ)
start = (97 ∷ []) ∷ []

abbrev path : List ℕ
path = 97 ∷ 47 ∷ 98 ∷ 47 ∷ 99 ∷ []

made_all : create_directories memory 6 path start ≡ done (true, path ∷ (97 ∷ 47 ∷ 98 ∷ []) ∷ start)
unfolding create_directories create_directory is_directory cut_last
made_all = refl

abbrev first : List ℕ → ℕ
first [] = 0
first (x ∷ p) = x

letter : (c : ℕ) → (path_delimiter == c) ≡ false → (c ≢ 46) → IsName (c ∷ [])
letter c flat proper = record {
  long = omega arith;
  flat = rw flat refl;
  proper = (λ e. proper (ap first e), λ e. omega (arith, ap length e));
}

path-IsOpen : IsOpen memory may_make start path
path-IsOpen =
    below {dir = 97 ∷ 47 ∷ 98 ∷ []} {name = 99 ∷ []}
      (below {dir = 97 ∷ []} {name = 98 ∷ []}
        (relative (letter 97 refl (omega arith)) (λ e. true≢false (some-injective true false e))
          refl)
        (letter 98 refl (omega arith)) (λ e. none-ne-some false e) refl)
      (letter 99 refl (omega arith)) (λ e. none-ne-some false e) refl

create_directories-IsMade_example :
    Returns (IsMade memory may_make start path) (create_directories memory 6 path start)
create_directories-IsMade_example =
    create_directories-IsMade memory may_make memory-IsPosix 6 start path path-IsOpen (omega arith)
      (omega arith)
