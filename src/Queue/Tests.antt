-- ===== src/Queue/Tests.antt =====
-- Runs of the queue on concrete entries.
use dmtimer.Base.{
  done, stopped, undefined, ◌>>=◌, ◌^◌, ◌+◌, arith, ◌≡◌, refl, true, false, List, [], ◌∷◌,
}
use dmtimer.Queue.{new_queue, int, init, used, advance, push_back, pop_front}
use dmtimer.Queue.Fifo.{Request, push, pop, pushed, popped, answers, fifo_answers, answers-init}

abbrev requests : List Request
requests = push 7 ∷ push 8 ∷ push 9 ∷ pop ∷ push 10 ∷ pop ∷ pop ∷ pop ∷ []

wraps :
    (init 2 new_queue >>= λ q. answers requests q)
    ≡ done (
        pushed true
        ∷ pushed true
        ∷ pushed false
        ∷ popped 7
        ∷ pushed true
        ∷ popped 8
        ∷ popped 10
        ∷ popped 0
        ∷ [])
unfolding int init used advance push_back pop_front
wraps = refl

answers-init_example :
    (init 2 new_queue >>= λ q. answers requests q) ≡ done (fifo_answers 2 requests [])
answers-init_example = answers-init 2 requests (omega arith)

-- The sum of the tail and the size overflows after 2 ^ 30 calls of `PushBack`, in a queue of 2 ^ 30 entries.
overflows :
    used (record { array = λ i. 0; head = 0; tail = 2 ^ 30; size = 2 ^ 30 + 1 }) ≡ stopped undefined
unfolding used int
overflows = refl
