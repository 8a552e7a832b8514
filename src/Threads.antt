-- ===== src/Threads.antt =====
-- include/dmthread.h: `CDMThreadCtrl`, the control of a thread, with the threads that run beside its owner. What
-- `ThrdProc` and `Terminate` of an `IDMThread` do is not part of it.
pub mod Session
mod Tests
use dmtimer.Base.{
  ℕ, zero, suc, ◌+◌, ◌<◌, ◌≡◌, Bool, true, false, not, Option, none, some, List, [], ◌∷◌, ◌++◌,
  if◌then◌else◌, ◌==◌, update, Outcome, done, stopped, undefined, aborted, ◌>>=◌, ◌⊎◌,
}

-- `std::thread` that `m_oThread` points to: which thread, and whether it can be joined
pub record StdThread : Type 0 where
  pub number : ℕ
  pub joinable : Bool

-- `CDMThreadCtrl`. An `IDMThread` is a number.
pub record ThreadCtrl : Type 0 where
  pub is_stop : Bool
  pub need_wait_for : Bool
  pub std_thread : Option StdThread
  pub thread : Option ℕ

-- How far a thread is in `StaticThreadFunc`: not yet in it, in `ThrdProc` of an `IDMThread`, or returned.
pub data Progress : Type 0 where
  waiting finished : Progress
  calling : ℕ → Progress

-- The control, until it is deleted, and the threads that have been started. `terminated` has the objects whose
-- `Terminate` was called.
pub record Process : Type 0 where
  pub ctrl : Option ThreadCtrl
  pub started : ℕ
  pub progress : ℕ → Progress
  pub terminated : ℕ → Bool

-- `CreateThreadCtrl`
unfoldable pub create_thread_ctrl : ThreadCtrl
create_thread_ctrl = record {
  is_stop = true;
  need_wait_for = true;
  std_thread = none;
  thread = none;
}

abbrev pub new_process : Process
new_process = record {
  ctrl = some create_thread_ctrl;
  started = 0;
  progress = λ i. waiting;
  terminated = λ t. false;
}

-- The destructor of `std::thread` calls `std::terminate` if the thread can be joined.
unfoldable pub drop_thread : Option StdThread → Outcome (Unit {0})
drop_thread none = done tt
drop_thread (some t) = if t.joinable then stopped aborted else done tt

-- A call of the control is undefined after it was deleted.
unfoldable pub with_ctrl : Process → (ThreadCtrl → Outcome Process) → Outcome Process
with_ctrl p f = elim (p.ctrl) [ none ↦ stopped undefined | some c ↦ f c ]

-- `Start`
unfoldable pub start_thread : ℕ → Bool → Process → Outcome Process
start_thread thread need_wait_for p = with_ctrl p λ c. (do
  t ← drop_thread c.std_thread
  done (record p {
    ctrl = some (record c {
      thread = some thread;
      need_wait_for = need_wait_for;
      std_thread = some (record { number = p.started; joinable = need_wait_for });
    });
    started = p.started + 1;
    progress = update p.progress p.started waiting;
  }))

-- `Stop`
unfoldable pub stop_thread : Process → Outcome Process
stop_thread p = with_ctrl p λ c. elim (c.thread) [
  | none ↦ stopped undefined
  | some t ↦ done (record p { terminated = update p.terminated t true })
]

-- Has the thread returned?
unfoldable pub is_finished : Progress → Bool
is_finished waiting = false
is_finished (calling t) = false
is_finished finished = true

-- `WaitFor`, which always returns true, or `none` while `join` blocks
unfoldable pub wait_for : Process → Option (Outcome Process)
wait_for p = elim (p.ctrl) [
  | none ↦ some (stopped undefined)
  | some c ↦ elim (c.std_thread) [
    | none ↦ some (stopped undefined)
    | some t ↦
        if not t.joinable
        then some (done p)
        else if is_finished (p.progress t.number)
        then some (
            done (record p {
              ctrl = some (record c { std_thread = some (record t { joinable = false }) });
            }))
        else none
  ]
]

-- `Release`: the destructor of `m_oThread`, then the control is gone
unfoldable pub release_ctrl : Process → Outcome Process
release_ctrl p = with_ctrl p λ c. (do t ← drop_thread c.std_thread; done (record p { ctrl = none }))

-- `GetThreadID`: the number of the thread, or none for one that cannot be joined
unfoldable pub get_thread_id : ThreadCtrl → Outcome (Option ℕ)
get_thread_id c = elim (c.std_thread) [
  | none ↦ stopped undefined
  | some t ↦ done (if t.joinable then some t.number else none)
]

-- `StaticThreadFunc` of the `i`-th thread, up to the call of `ThrdProc`
unfoldable pub static_thread_func : ℕ → Process → Outcome Process
static_thread_func i p = with_ctrl p λ c. elim (c.thread) [
  | none ↦ stopped undefined
  | some t ↦ done (record p {
    ctrl = some (record c { is_stop = false });
    progress = update p.progress i (calling t);
  })
]

-- `ThrdProc` of the `i`-th thread returns, and with it the thread.
unfoldable pub leave : ℕ → Process → Process
leave i p = record p { progress = update p.progress i finished }

-- the calls that the owner of a control makes
pub data OwnerCall : Type 0 where
  starts : ℕ → Bool → OwnerCall
  stops waits releases : OwnerCall

unfoldable pub call : OwnerCall → Process → Option (Outcome Process)
call (starts thread need_wait_for) p = some (start_thread thread need_wait_for p)
call stops p = some (stop_thread p)
call waits p = wait_for p
call releases p = some (release_ctrl p)

-- A step of the owner, with the calls that it has still to make, or of one of the threads, which may call `Stop` from
-- `ThrdProc`. They come in any order.
pub data Step : List OwnerCall → Process → List OwnerCall → Outcome Process → Type 0 where
  of_owner :
      {c : OwnerCall} {cs : List OwnerCall} {p : Process} {r : Outcome Process}
      → call c p ≡ some r
      → Step (c ∷ cs) p cs r
  enters :
      {cs : List OwnerCall} {p : Process} {i : ℕ}
      → i < p.started
      → p.progress i ≡ waiting
      → Step cs p cs (static_thread_func i p)
  stops_itself :
      {cs : List OwnerCall} {p : Process} {i t : ℕ}
      → i < p.started
      → p.progress i ≡ calling t
      → Step cs p cs (stop_thread p)
  leaves :
      {cs : List OwnerCall} {p : Process} {i t : ℕ}
      → i < p.started
      → p.progress i ≡ calling t
      → Step cs p cs (done (leave i p))

-- the states that an owner with the calls `cs0` reaches with its threads
pub data IsReached (cs0 : List OwnerCall) : List OwnerCall → Process → Type 0 where
  begin : IsReached cs0 cs0 new_process
  next :
      {cs cs' : List OwnerCall} {p p' : Process}
      → IsReached cs0 cs p
      → Step cs p cs' (done p')
      → IsReached cs0 cs' p'
