-- ===== src/Queue/Fifo.antt =====
-- The array that wraps around holds a sequence, to which `PushBack` appends and from which `PopFront` takes
-- the first; so every run of calls answers as a bounded sequence does.
use dmtimer.Base.{
  Outcome, done, Returns, returns, Returns-value, ◌>>=◌, ◌^◌, ℕ, suc, ◌+◌, ◌-◌, ◌≤◌, ◌<◌, ◌≡◌, refl,
  ap, inl, inr, Bool, true, false, arith, List, [], ◌∷◌, ◌++◌, length, length-append, leb, ltb,
  ◌==◌, if◌then◌else◌, Bool-cases, update,
}
use dmtimer.Queue.{Queue, new_queue, int, init, used, advance, push_back, pop_front}

-- the index behind `i`
abbrev pub turn : ℕ → ℕ → ℕ
turn size i = if leb size (i + 1) then 0 else i + 1

-- From index `i` the array holds `xs`, and `t` is the index behind them.
abbrev pub Holds : (ℕ → ℕ) → ℕ → ℕ → List ℕ → ℕ → Type 0
Holds array size i [] t = i ≡ t
Holds array size i (x ∷ xs) t = (array i ≡ x) × Holds array size (turn size i) xs t

-- The queue of `capacity` entries holds `xs`.
pub record IsQueue (capacity : ℕ) (xs : List ℕ) (q : Queue) : Type 0 where
  pub size : q.size ≡ capacity + 1
  pub small : capacity < 2 ^ 30
  pub fits : length xs ≤ capacity
  pub head : q.head < q.size
  pub holds : Holds q.array q.size q.head xs q.tail

-- the index `n` places on
abbrev place : ℕ → ℕ → ℕ → ℕ
place size i n = if leb size (i + n) then i + n - size else i + n

Holds-place :
    (array : ℕ → ℕ) (size i t : ℕ) (xs : List ℕ)
    → i < size
    → length xs < size
    → Holds array size i xs t
    → t ≡ place size i (length xs)
Holds-place array size i t [] inside fits e = ground arith
Holds-place array size i t (x ∷ xs) inside fits (e, h) =
    let rest = Holds-place array size (turn size i) t xs (ground arith) (omega arith) h in
    ground (arith, rest)

int-done : (sum : ℕ) → sum < 2 ^ 31 → int sum ≡ done sum
unfolding int
int-done sum h = let fits : ltb sum (2 ^ 31) ≡ true = ground (arith, h) in rw fits refl

used-length :
    {capacity : ℕ} {xs : List ℕ} (q : Queue) → IsQueue capacity xs q → used q ≡ done (length xs)
unfolding used
used-length {xs} q i =
    let at =
      Holds-place q.array q.size q.head q.tail xs i.head (omega (arith, i.size, i.fits)) i.holds in
    let small : q.tail + q.size < 2 ^ 31 = ground (arith, at, i.head, i.size, i.small, i.fits) in
    rw (int-done (q.tail + q.size) small) (ap done (ground (arith, at, i.head, i.size, i.fits)))

advance-turn : (size i : ℕ) → i < size → size ≤ 2 ^ 30 → advance size i ≡ done (turn size i)
unfolding advance
advance-turn size i h small = rw (int-done (i + 1) (omega (arith, h, small))) refl

-- An entry at an index that no entry of the sequence has.
Holds-snoc :
    (array : ℕ → ℕ) (size i t y : ℕ) (xs : List ℕ)
    → i < size
    → suc (length xs) < size
    → Holds array size i xs t
    → Holds (update array t y) size i (xs ++ y ∷ []) (turn size t)
Holds-snoc array size i t y [] inside fits e = (ground arith, ap (λ j. turn size j) e)
Holds-snoc array size i t y (x ∷ xs) inside fits (e, h) =
    let at = Holds-place array size (turn size i) t xs (ground arith) (omega arith) h in
    (ground (arith, at), Holds-snoc array size (turn size i) t y xs (ground arith) (omega arith) h)

init-IsQueue :
    (capacity : ℕ) → capacity < 2 ^ 30 → Returns (IsQueue capacity []) (init capacity new_queue)
unfolding init
init-IsQueue capacity small = rw (int-done (capacity + 1) (omega (arith, small))) (
    returns
      (record { size = refl; small = small; fits = omega arith; head = omega arith; holds = refl }))

push_back-IsQueue :
    (capacity ptr : ℕ) (xs : List ℕ) (q : Queue)
    → IsQueue capacity xs q
    → length xs < capacity
    → (q' : Queue) × (push_back ptr q ≡ done (true, q')) × IsQueue capacity (xs ++ ptr ∷ []) q'
unfolding push_back
push_back-IsQueue capacity ptr xs q i room =
    let free : leb (q.size - 1) (length xs) ≡ false = ground (arith, i.size) in
    let at =
      Holds-place q.array q.size q.head q.tail xs i.head (omega (arith, i.size, i.fits)) i.holds in
    let inside : q.tail < q.size = ground (arith, at, i.head, i.size, i.fits) in
    rw (used-length q i, free, advance-turn q.size q.tail inside (omega (arith, i.size, i.small)))
      (
        _,
        refl,
        record {
          size = i.size;
          small = i.small;
          fits = omega (arith, length-append xs (ptr ∷ []));
          head = i.head;
          holds =
              Holds-snoc q.array q.size q.head q.tail ptr xs i.head (omega (arith, i.size)) i.holds;
        },
      )

push_back-full :
    (capacity ptr : ℕ) (xs : List ℕ) (q : Queue)
    → IsQueue capacity xs q
    → capacity ≤ length xs
    → push_back ptr q ≡ done (false, q)
unfolding push_back
push_back-full capacity ptr xs q i full =
    let no_room : leb (q.size - 1) (length xs) ≡ true = ground (arith, i.size) in
    rw (used-length q i, no_room) refl

pop_front-empty : (capacity : ℕ) (q : Queue) → IsQueue capacity [] q → pop_front q ≡ done (0, q)
unfolding pop_front
pop_front-empty capacity q i = rw (used-length q i) refl

pop_front-IsQueue :
    (capacity x : ℕ) (xs : List ℕ) (q : Queue)
    → IsQueue capacity (x ∷ xs) q
    → (q' : Queue) × (pop_front q ≡ done (x, q')) × IsQueue capacity xs q'
unfolding pop_front
pop_front-IsQueue capacity x xs q i =
    let some_used : (0 == length (x ∷ xs)) ≡ false = ground arith in
    rw
      (
        used-length q i,
        some_used,
        advance-turn q.size q.head i.head (omega (arith, i.size, i.small)),
        i.holds.0,
      )
      (
        _,
        refl,
        record {
          size = i.size;
          small = i.small;
          fits = omega (arith, i.fits);
          head = ground (arith, i.size);
          holds = i.holds.1;
        },
      )

-- A call of a queue, and its answer.
pub data Request : Type 0 where
  push : ℕ → Request
  pop : Request

pub data Answer : Type 0 where
  pushed : Bool → Answer
  popped : ℕ → Answer

-- the answers of the queue to a sequence of calls
abbrev pub answers : List Request → Queue → Outcome (List Answer)
answers [] q = done []
answers (push ptr ∷ rs) q = do
  (ok, q') ← push_back ptr q
  rest ← answers rs q'
  done (pushed ok ∷ rest)
answers (pop ∷ rs) q = do (ptr, q') ← pop_front q; rest ← answers rs q'; done (popped ptr ∷ rest)

-- the answers of a sequence of at most `capacity` entries, which is changed at its ends
abbrev pub fifo_answers : ℕ → List Request → List ℕ → List Answer
fifo_answers capacity [] xs = []
fifo_answers capacity (push ptr ∷ rs) xs =
    if ltb (length xs) capacity
    then pushed true ∷ fifo_answers capacity rs (xs ++ ptr ∷ [])
    else pushed false ∷ fifo_answers capacity rs xs
fifo_answers capacity (pop ∷ rs) [] = popped 0 ∷ fifo_answers capacity rs []
fifo_answers capacity (pop ∷ rs) (x ∷ xs) = popped x ∷ fifo_answers capacity rs xs

answers-IsQueue :
    (capacity : ℕ) (rs : List Request) (xs : List ℕ) (q : Queue)
    → IsQueue capacity xs q
    → answers rs q ≡ done (fifo_answers capacity rs xs)
answers-IsQueue capacity [] xs q i = refl
answers-IsQueue capacity (push ptr ∷ rs) xs q i = elim (Bool-cases (ltb (length xs) capacity)) [
  | inl e ↦
      let (q', ok, j) = push_back-IsQueue capacity ptr xs q i (ground arith) in
      rw (e, ok, answers-IsQueue capacity rs (xs ++ ptr ∷ []) q' j) refl
  | inr n ↦
      rw (n, push_back-full capacity ptr xs q i (ground arith), answers-IsQueue capacity rs xs q i)
        refl
]
answers-IsQueue capacity (pop ∷ rs) [] q i =
    rw (pop_front-empty capacity q i, answers-IsQueue capacity rs [] q i) refl
answers-IsQueue capacity (pop ∷ rs) (x ∷ xs) q i =
    let (q', first, j) = pop_front-IsQueue capacity x xs q i in
    rw (first, answers-IsQueue capacity rs xs q' j) refl

-- A queue of a capacity `n` below 2 ^ 30 after `Init( n )` answers any sequence of calls of
-- `PushBack` and `PopFront` as a first-in first-out sequence of at most `n` entries does: a push is
-- accepted while there is room, a pop gives the oldest entry, or `NULL` when there is none. No
-- `int` overflows.
pub answers-init :
    (capacity : ℕ) (rs : List Request)
    → capacity < 2 ^ 30
    → (init capacity new_queue >>= λ q. answers rs q) ≡ done (fifo_answers capacity rs [])
answers-init capacity rs small =
    let (q, e, i) = Returns-value (init-IsQueue capacity small) in
    rw e (answers-IsQueue capacity rs [] q i)
