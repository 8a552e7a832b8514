-- ===== src/Queue.antt =====
-- include/dmqueue.h: `CDMQueue`, a bounded queue of pointers in an array that wraps around. A pointer is a
-- number, and 0 is `NULL`. The `int`s are not negative; one that overflows is undefined.
pub mod Fifo
mod Tests
use dmtimer.Base.{
  Outcome, done, stopped, undefined, ◌>>=◌, ◌^◌, ℕ, ◌+◌, ◌-◌, Bool, true, false, List, [], ◌∷◌,
  ◌++◌, length, leb, ltb, ◌==◌, if◌then◌else◌, update,
}

pub record Queue : Type 0 where
  pub array : ℕ → ℕ
  pub head : ℕ
  pub tail : ℕ
  pub size : ℕ

-- the constructor; without an array there is nothing to read
abbrev pub new_queue : Queue
new_queue = record { array = λ i. 0; head = 0; tail = 0; size = 0 }

-- a sum of `int`s
unfoldable pub int : ℕ → Outcome ℕ
int sum = if ltb sum (2 ^ 31) then done sum else stopped undefined

-- `Init`: the new array is filled with `NULL`
unfoldable pub init : ℕ → Queue → Outcome Queue
init size q = do places ← int (size + 1); done (record q { array = λ i. 0; size = places })

-- the entries in use
unfoldable pub used : Queue → Outcome ℕ
used q = do
  sum ← int (q.tail + q.size)
  let dist = sum - q.head
  done (if leb q.size dist then dist - q.size else dist)

-- an index that is advanced
unfoldable pub advance : ℕ → ℕ → Outcome ℕ
advance size i = do j ← int (i + 1); done (if leb size j then 0 else j)

-- `PushBack`
unfoldable pub push_back : ℕ → Queue → Outcome (Bool × Queue)
push_back ptr q = do
  n ← used q
  if leb (q.size - 1) n then done (false, q) else (do
    tail ← advance q.size q.tail
    done (true, record q { array = update q.array q.tail ptr; tail = tail }))

-- `PopFront`
unfoldable pub pop_front : Queue → Outcome (ℕ × Queue)
pop_front q = do
  n ← used q
  if 0 == n
      then done (0, q)
      else (do head ← advance q.size q.head; done (q.array q.head, record q { head = head }))
