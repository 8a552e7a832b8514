-- ===== src/Threads/Session.antt =====
-- An owner that starts a thread to wait for, stops it any number of times, waits for it and releases the control of
-- include/dmthread.h, with every interleaving of its calls with the thread.
use mathlib.Core.Path.{subst}
use mathlib.Core.Bool.{false≢true}
use mathlib.Core.Option.{some-injective, none-ne-some}
use mathlib.Core.List.{cons≢nil}
use dmtimer.Base.{
  Returns-done, Returns-mono, Returns-value, Bool-cases, ℕ, zero, suc, ◌<◌, ◌≡◌, refl, ap, sym, ◌∙◌,
  inl, inr, ◌⊎◌, Bool, true, false, none, some, List, [], ◌∷◌, arith, Outcome, done, Returns,
  returns,
}
use dmtimer.Threads.{
  ThreadCtrl, Progress, waiting, finished, calling, Process, new_process, create_thread_ctrl,
  drop_thread, with_ctrl, start_thread, stop_thread, is_finished, wait_for, release_ctrl,
  static_thread_func, leave, OwnerCall, starts, stops, waits, releases, call, Step, of_owner,
  enters, stops_itself, leaves, IsReached, begin, next,
}

-- the calls behind `Start`: `n` of `Stop`, then `WaitFor` and `Release`
abbrev pub ending : ℕ → List OwnerCall
ending zero = waits ∷ releases ∷ []
ending (suc n) = stops ∷ ending n

abbrev pub session : ℕ → ℕ → List OwnerCall
session t n = starts t true ∷ ending n

-- the control while thread 0 runs, or has been joined
record IsControl (t : ℕ) (joinable : Bool) (p : Process) : Type 0 where
  ctrl : ThreadCtrl
  held : p.ctrl ≡ some ctrl
  target : ctrl.thread ≡ some t
  thread : ctrl.std_thread ≡ some (record { number = 0; joinable = joinable })
  one : p.started ≡ 1

-- where the owner is in its session
data Stage (t n : ℕ) : List OwnerCall → Process → Type 0 where
  before : Stage t n (session t n) new_process
  running : (k : ℕ) {p : Process} → IsControl t true p → Stage t n (stops ∷ ending k) p
  stopping : {p : Process} → IsControl t true p → Stage t n (waits ∷ releases ∷ []) p
  joined :
      {p : Process} → IsControl t false p → p.progress 0 ≡ finished → Stage t n (releases ∷ []) p
  over : {p : Process} → p.ctrl ≡ none → p.started ≡ 1 → p.progress 0 ≡ finished → Stage t n [] p

-- What a state of a session promises: no step of the owner or of the thread fails, there is a step until the owner has
-- made all its calls, and then the thread has returned and the control is gone.
pub record IsSound (cs : List OwnerCall) (p : Process) : Type 0 where
  pub faultless :
      (cs' : List OwnerCall) (r : Outcome Process)
      → Step cs p cs' r
      → (p' : Process) × (r ≡ done p')
  pub moves : (cs ≡ []) ⊎ ((cs' : List OwnerCall) × (p' : Process) × Step cs p cs' (done p'))
  pub ended : cs ≡ [] → (p.ctrl ≡ none) × (p.started ≡ 1) × (p.progress 0 ≡ finished)

is_finished-true : (x : Progress) → is_finished x ≡ true → x ≡ finished
unfolding is_finished
is_finished-true waiting e = elim (false≢true e) [ ]
is_finished-true (calling t) e = elim (false≢true e) [ ]
is_finished-true finished e = refl

module _ {t : ℕ} where
  stop_thread-IsControl :
      {b : Bool} (p : Process)
      → IsControl t b p
      → Returns
          (λ (p' : Process). IsControl t b p' × (p'.progress 0 ≡ p.progress 0))
          (stop_thread p)
  unfolding stop_thread with_ctrl
  stop_thread-IsControl p c =
      rw (c.held, c.target)
        (returns (
          record {
            ctrl = c.ctrl;
            held = c.held;
            target = c.target;
            thread = c.thread;
            one = c.one;
          },
          refl,
        ))

  enter-IsControl :
      {b : Bool} (i : ℕ) (p : Process)
      → IsControl t b p
      → Returns (λ (p' : Process). IsControl t b p') (static_thread_func i p)
  unfolding static_thread_func with_ctrl
  enter-IsControl i p c =
      rw (c.held, c.target)
        (returns (record {
          ctrl = record c.ctrl { is_stop = false };
          held = refl;
          target = c.target;
          thread = c.thread;
          one = c.one;
        }))

  leave-IsControl : {b : Bool} (i : ℕ) (p : Process) → IsControl t b p → IsControl t b (leave i p)
  unfolding leave
  leave-IsControl i p c = record {
    ctrl = c.ctrl;
    held = c.held;
    target = c.target;
    thread = c.thread;
    one = c.one;
  }

  start_thread-IsControl : Returns (IsControl t true) (start_thread t true new_process)
  unfolding start_thread with_ctrl create_thread_ctrl drop_thread
  start_thread-IsControl = returns (record {
    ctrl = record {
      is_stop = true;
      need_wait_for = true;
      std_thread = some (record { number = 0; joinable = true });
      thread = some t;
    };
    held = refl;
    target = refl;
    thread = refl;
    one = refl;
  })

  wait_for-IsControl :
      (p : Process) (r : Outcome Process)
      → IsControl t true p
      → wait_for p ≡ some r
      → Returns (λ (p' : Process). IsControl t false p' × (p'.progress 0 ≡ finished)) r
  unfolding wait_for
  wait_for-IsControl p r c e = elim (Bool-cases (is_finished (p.progress 0))) [
    | inl back ↦ subst (Returns _) (some-injective _ _ (rw (c.held, c.thread, back) at e)) (
        returns (
          record {
            ctrl = record c.ctrl { std_thread = some (record { number = 0; joinable = false }) };
            held = refl;
            target = c.target;
            thread = refl;
            one = c.one;
          },
          is_finished-true (p.progress 0) back,
        ))
    | inr away ↦ elim (none-ne-some _ (rw (c.held, c.thread, away) at e)) [ ]
  ]

  release_ctrl-over :
      (p : Process)
      → IsControl t false p
      → Returns
          (λ (p' : Process).
            (p'.ctrl ≡ none) × (p'.started ≡ p.started) × (p'.progress 0 ≡ p.progress 0))
          (release_ctrl p)
  unfolding release_ctrl with_ctrl drop_thread
  release_ctrl-over p c = rw (c.held, c.thread) (returns (refl, refl, refl))

  wait_for-finished :
      (p : Process)
      → IsControl t true p
      → p.progress 0 ≡ finished
      → (p' : Process) × (wait_for p ≡ some (done p'))
  unfolding wait_for is_finished
  wait_for-finished p c end = rw (c.held, c.thread, end) (_, refl)

  -- `WaitFor` goes on, or the thread does.
  stopping-moves :
      (p : Process)
      → IsControl t true p
      → (x : Progress) → p.progress 0 ≡ x
      → (cs' : List OwnerCall) × (p' : Process) × Step (waits ∷ releases ∷ []) p cs' (done p')
  unfolding call
  stopping-moves p c waiting e =
      let (p', entered, c') = Returns-value (enter-IsControl 0 p c) in
      (waits ∷ releases ∷ [], p', subst (Step _ p _) entered (enters (omega (arith, c.one)) e))
  stopping-moves p c (calling s) e =
      (waits ∷ releases ∷ [], leave 0 p, leaves (omega (arith, c.one)) e)
  stopping-moves p c finished e =
      let (p', waited) = wait_for-finished p c e in (releases ∷ [], p', of_owner waited)

-- The only thread stays returned.
returned :
    (i : ℕ) (p : Process) (x : Progress)
    → p.started ≡ 1
    → i < p.started
    → p.progress 0 ≡ finished
    → p.progress i ≡ x
    → is_finished x ≡ true
unfolding is_finished
returned i p x one h end e =
    let first : i ≡ 0 = omega (arith, h, one) in
    let back : p.progress i ≡ finished = rw first end in ap is_finished (sym e ∙ back)

module _ {t n : ℕ} where
  begun : (k : ℕ) (p : Process) → IsControl t true p → Stage t n (ending k) p
  begun zero p c = stopping c
  begun (suc k) p c = running k c

  Step-Stage :
      (cs cs' : List OwnerCall) (p : Process) (r : Outcome Process)
      → Stage t n cs p
      → Step cs p cs' r
      → Returns (Stage t n cs') r
  unfolding call is_finished
  Step-Stage cs cs' p r before (of_owner e) =
      subst (Returns _) (some-injective _ _ e)
        (Returns-mono start_thread-IsControl λ p' c. begun n p' c)
  Step-Stage cs cs' p r before (enters h e) = let bad : ⊥ = omega (arith, h) in elim bad [ ]
  Step-Stage cs cs' p r before (stops_itself h e) = let bad : ⊥ = omega (arith, h) in elim bad [ ]
  Step-Stage cs cs' p r before (leaves h e) = let bad : ⊥ = omega (arith, h) in elim bad [ ]
  Step-Stage cs cs' p r (running k c) (of_owner e) =
      subst (Returns _) (some-injective _ _ e)
        (Returns-mono (stop_thread-IsControl p c) λ p' c'. begun k p' c'.0)
  Step-Stage cs cs' p r (running k c) (enters {i = i} h e) =
      Returns-mono (enter-IsControl i p c) λ p' c'. running k c'
  Step-Stage cs cs' p r (running k c) (stops_itself h e) =
      Returns-mono (stop_thread-IsControl p c) λ p' c'. running k c'.0
  Step-Stage cs cs' p r (running k c) (leaves {i = i} h e) =
      returns (running k (leave-IsControl i p c))
  Step-Stage cs cs' p r (stopping c) (of_owner e) =
      Returns-mono (wait_for-IsControl p r c e) λ p' c'. joined c'.0 c'.1
  Step-Stage cs cs' p r (stopping c) (enters {i = i} h e) =
      Returns-mono (enter-IsControl i p c) λ p' c'. stopping c'
  Step-Stage cs cs' p r (stopping c) (stops_itself h e) =
      Returns-mono (stop_thread-IsControl p c) λ p' c'. stopping c'.0
  Step-Stage cs cs' p r (stopping c) (leaves {i = i} h e) =
      returns (stopping (leave-IsControl i p c))
  Step-Stage cs cs' p r (joined c end) (of_owner e) = subst (Returns _) (some-injective _ _ e) (
      Returns-mono (release_ctrl-over p c)
        λ p' (gone, one, same). over gone (one ∙ c.one) (same ∙ end))
  Step-Stage cs cs' p r (joined c end) (enters {i = i} h e) =
      elim (false≢true (returned i p _ c.one h end e)) [ ]
  Step-Stage cs cs' p r (joined c end) (stops_itself {i = i} h e) =
      elim (false≢true (returned i p _ c.one h end e)) [ ]
  Step-Stage cs cs' p r (joined c end) (leaves {i = i} h e) =
      elim (false≢true (returned i p _ c.one h end e)) [ ]
  Step-Stage cs cs' p r (over gone one end) (enters {i = i} h e) =
      elim (false≢true (returned i p _ one h end e)) [ ]
  Step-Stage cs cs' p r (over gone one end) (stops_itself {i = i} h e) =
      elim (false≢true (returned i p _ one h end e)) [ ]
  Step-Stage cs cs' p r (over gone one end) (leaves {i = i} h e) =
      elim (false≢true (returned i p _ one h end e)) [ ]

  -- There is a step of the owner, unless it waits for the thread, and then there is one of the thread.
  Stage-moves :
      (cs : List OwnerCall) (p : Process)
      → Stage t n cs p
      → (cs ≡ []) ⊎ ((cs' : List OwnerCall) × (p' : Process) × Step cs p cs' (done p'))
  unfolding call
  Stage-moves cs p before =
      let (p', e, c) = Returns-value (start_thread-IsControl {t = t}) in
      inr (ending n, p', of_owner (ap some e))
  Stage-moves cs p (running k c) =
      let (p', e, c') = Returns-value (stop_thread-IsControl p c) in
      inr (ending k, p', of_owner (ap some e))
  Stage-moves cs p (stopping c) = inr (stopping-moves p c (p.progress 0) refl)
  Stage-moves cs p (joined c end) =
      let (p', e, o) = Returns-value (release_ctrl-over p c) in inr ([], p', of_owner (ap some e))
  Stage-moves cs p (over gone one end) = inl refl

  Stage-ended :
      (cs : List OwnerCall) (p : Process)
      → Stage t n cs p
      → cs ≡ []
      → (p.ctrl ≡ none) × (p.started ≡ 1) × (p.progress 0 ≡ finished)
  Stage-ended cs p before e = elim (cons≢nil e) [ ]
  Stage-ended cs p (running k c) e = elim (cons≢nil e) [ ]
  Stage-ended cs p (stopping c) e = elim (cons≢nil e) [ ]
  Stage-ended cs p (joined c end) e = elim (cons≢nil e) [ ]
  Stage-ended cs p (over gone one end) e = (gone, one, end)

  reached-Stage :
      (cs : List OwnerCall) (p : Process) → IsReached (session t n) cs p → Stage t n cs p
  reached-Stage cs p begin = before
  reached-Stage cs p (next {cs = cs1} {p = p1} reached step) =
      Returns-done (Step-Stage cs1 cs p1 (done p) (reached-Stage cs1 p1 reached) step)

-- An owner calls `Start` with `bNeedWaitFor` set, then `Stop` any number of times, `WaitFor` and
-- `Release`, in any interleaving with its thread, which enters `StaticThreadFunc`, may call `Stop`
-- itself from `ThrdProc`, and returns at any time. In every state that is reached, no step of
-- either fails: nothing reads a pointer that is not set or a control that is deleted, and no
-- `std::thread` that can be joined is destroyed. There is a step until the owner has made all its
-- calls, and then the thread has returned and the control is gone.
pub session-IsSound :
    (t n : ℕ) (cs : List OwnerCall) (p : Process) → IsReached (session t n) cs p → IsSound cs p
session-IsSound t n cs p reached =
    let stage = reached-Stage {t = t} {n = n} cs p reached in
    record {
      faultless = λ cs' r step.
          let (p', e, stage') = Returns-value (Step-Stage cs cs' p r stage step) in (p', e);
      moves = Stage-moves cs p stage;
      ended = Stage-ended cs p stage;
    }
