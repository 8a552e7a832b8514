-- ===== src/Util.antt =====
-- include/dmutil.h where the system is POSIX: directories, and the path of the program. What the system does is a
-- parameter.
pub mod Paths
pub mod Directories
pub mod Formats
mod Tests
use dmtimer.Base.{
  ℕ, zero, suc, Bool, true, false, not, Option, none, some, List, [], ◌∷◌, ◌++◌, leb, ◌==◌,
  if◌then◌else◌, length, Outcome, done, stopped, undefined, out_of_fuel, ◌>>=◌,
}

-- `PATH_MAX` of Linux
abbrev pub max_path : ℕ
max_path = 4096

-- `PATH_DELIMITER`
abbrev pub path_delimiter : ℕ
path_delimiter = 47

-- The calls of the system. `access` and `mkdir` tell whether they return 0, `stat` whether the file is a
-- directory, if it returns 0.
pub record FileSystem : Type 1 where
  pub State : Type 0
  pub access : State → List ℕ → Bool
  pub stat : State → List ℕ → Option Bool
  pub mkdir : State → List ℕ → Bool × State
  pub chdir : State → List ℕ → Bool × State

-- `strrchr`: what comes before the last `c`, and what comes behind it
unfoldable pub cut_last : ℕ → List ℕ → Option (List ℕ × List ℕ)
cut_last c [] = none
cut_last c (x ∷ s) = elim (cut_last c s) [
  | some (before, behind) ↦ some (x ∷ before, behind)
  | none ↦ if x == c then some ([], s) else none
]

module _ (F : FileSystem) where
  -- `DMIsDirectory`
  unfoldable pub is_directory : F.State → List ℕ → Bool
  is_directory s dir_name = elim (F.stat s dir_name) [ some d ↦ d | none ↦ false ]

  -- `DMCreateDirectory`
  unfoldable pub create_directory : List ℕ → F.State → Bool × F.State
  create_directory dir_name s = F.mkdir s dir_name

  -- `DMCreateDirectories`. `strncpy` leaves a name of `MAX_PATH` bytes or more without an end, behind which
  -- `strrchr` reads.
  unfoldable pub create_directories : ℕ → List ℕ → F.State → Outcome (Bool × F.State)
  create_directories zero dir_name s = stopped out_of_fuel
  create_directories (suc fuel) dir_name s =
      if F.access s dir_name
      then done (is_directory s dir_name, s)
      else if leb max_path (length dir_name)
      then stopped undefined
      else elim (cut_last path_delimiter dir_name) [
        | none ↦ done (create_directory dir_name s)
        | some (path, rest) ↦ (do
          (b, s1) ← create_directories fuel path s
          done (create_directory dir_name s1))
      ]

  -- `DMSetWorkPath( std::string& )`
  unfoldable pub set_work_path : List ℕ → F.State → Bool × F.State
  set_work_path path s = F.chdir s path

-- "./"
abbrev pub here : List ℕ
here = 46 ∷ 47 ∷ []

-- `DMGetRootPath`, when `readlink` of /proc/self/exe writes the bytes `link` or fails
unfoldable pub get_root_path : Option (List ℕ) → List ℕ
get_root_path none = here
get_root_path (some link) =
    if leb max_path (length link)
    then here
    else elim (cut_last path_delimiter link) [ none ↦ link | some (before, behind) ↦ before ]

-- `DMGetExePath`
unfoldable pub get_exe_path : Option (List ℕ) → List ℕ
get_exe_path none = here
get_exe_path (some link) = if leb max_path (length link) then here else link

-- `DMGetExeName`, which copies bytes that nothing was written to when `readlink` fails
unfoldable pub get_exe_name : Option (List ℕ) → Outcome (List ℕ)
get_exe_name none = stopped undefined
get_exe_name (some link) =
    if leb max_path (length link) then stopped undefined else elim (cut_last path_delimiter link) [
      | none ↦ done link
      | some (before, behind) ↦ done behind
    ]

-- `DMSetWorkPath()`: the path with "\..\" behind it
unfoldable pub set_work_path_to_root : (F : FileSystem) → Option (List ℕ) → F.State → Bool × F.State
set_work_path_to_root F link s = set_work_path F (get_root_path link ++ 92 ∷ 46 ∷ 46 ∷ 92 ∷ []) s
