-- ===== src/Singleton.antt =====
-- include/dmsingleton.h: `CDMSingleton<T>` and `CDMSingletonFrame`. A type `T` and the address of an object
-- are numbers. `new` does not fail; the address that it would give is an argument.
pub mod Frame
pub mod Local
mod Tests
use dmtimer.Base.{
  ℕ, ◌+◌, Bool, true, false, ◌||◌, not, Option, none, some, List, [], ◌∷◌, ◌++◌, ◌==◌,
  if◌then◌else◌, update, Outcome, done, stopped, undefined, ◌>>=◌, assert,
}

-- `m_poInstance` of every type, and `m_vecList` of the frame: the objects, each with its type
pub record Singletons : Type 0 where
  pub instances : ℕ → Option ℕ
  pub list : List (ℕ × ℕ)

-- `CDMSingleton<T>::Create` when it needs no assertion: the object that is there, or a new one
unfoldable pub create : ℕ → ℕ → Singletons → ℕ × Singletons
create t fresh s = elim (s.instances t) [
  | none ↦ (fresh, record s { instances = update s.instances t (some fresh) })
  | some p ↦ (p, s)
]

-- `CDMSingleton<T>::Destroy`
unfoldable pub destroy : ℕ → Singletons → Singletons
destroy t s = record s { instances = update s.instances t none }

-- `std::count` of an object in the list is not 0
abbrev pub has : ℕ → List (ℕ × ℕ) → Bool
has p [] = false
has p (e ∷ es) = (e.1 == p) || has p es

-- `AddSingleton<T>`; `Create` never answers false
unfoldable pub add_singleton : Bool → ℕ → ℕ → Singletons → Outcome Singletons
add_singleton ndebug t fresh s =
    let (p, s1) = create t fresh s in
    if has p s1.list
    then assert ndebug false (done s1)
    else done (record s1 { list = s1.list ++ (t, p) ∷ [] })

-- the list from behind
abbrev pub backwards : List (ℕ × ℕ) → List (ℕ × ℕ)
backwards [] = []
backwards (e ∷ es) = backwards es ++ e ∷ []

-- The object that an entry points to is there: it is still the instance of its type.
unfoldable pub is_there : Singletons → ℕ × ℕ → Bool
is_there s (t, p) = elim (s.instances t) [ none ↦ false | some q ↦ q == p ]

-- the loop of `Init` and `UnInit`, with the answer of an object's own method; a call through a pointer to an object
-- that is destroyed is undefined
unfoldable pub call_all : Bool → (ℕ × ℕ → Bool) → List (ℕ × ℕ) → Singletons → Outcome (List (ℕ × ℕ))
call_all ndebug answer [] s = done []
call_all ndebug answer (e ∷ es) s =
    let rest = call_all ndebug answer es s in
    if is_there s e
    then assert ndebug (answer e) (do called ← rest; done (e ∷ called))
    else stopped undefined

-- `CDMSingletonFrame::Init`: the objects that were called, in order
unfoldable pub init_all : Bool → (ℕ × ℕ → Bool) → Singletons → Outcome (List (ℕ × ℕ))
init_all ndebug answer s = call_all ndebug answer s.list s

-- `CDMSingletonFrame::UnInit`
unfoldable pub un_init_all : Bool → (ℕ × ℕ → Bool) → Singletons → Outcome (List (ℕ × ℕ))
un_init_all ndebug answer s = call_all ndebug answer (backwards s.list) s

-- the loop of `Release`: `Release` of an object that is there destroys it
unfoldable pub release_all : List (ℕ × ℕ) → Singletons → Outcome Singletons
release_all [] s = done s
release_all (e ∷ es) s = if is_there s e then release_all es (destroy e.0 s) else stopped undefined

-- `CDMSingletonFrame::Release`
unfoldable pub release : Singletons → Outcome Singletons
release s = do s' ← release_all (backwards s.list) s; done (record s' { list = [] })
