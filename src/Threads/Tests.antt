-- ===== src/Threads/Tests.antt =====
-- Sessions of a control on concrete calls.
use dmtimer.Base.{
  ◌≡◌, refl, true, false, none, some, List, [], ◌∷◌, arith, update, stopped, undefined, aborted,
}
use dmtimer.Threads.{
  Process, create_thread_ctrl, drop_thread, with_ctrl, start_thread, release_ctrl,
  static_thread_func, OwnerCall, starts, waits, releases, call, Step, of_owner, enters, IsReached,
  begin, next, calling, waiting,
}
use dmtimer.Threads.Session.{session, IsSound, session-IsSound}

-- the thread runs, while the owner has still to wait
abbrev entered : Process
entered = record {
  ctrl = some (record {
    is_stop = false;
    need_wait_for = true;
    std_thread = some (record { number = 0; joinable = true });
    thread = some 7;
  });
  started = 1;
  progress = update (update (λ i. waiting) 0 waiting) 0 (calling 7);
  terminated = λ t. false;
}

entered-IsReached : IsReached (session 7 0) (waits ∷ releases ∷ []) entered
unfolding call start_thread with_ctrl create_thread_ctrl drop_thread static_thread_func
entered-IsReached = next (next begin (of_owner refl)) (enters {i = 0} (omega arith) refl)

session-IsSound_example : IsSound (waits ∷ releases ∷ []) entered
session-IsSound_example = session-IsSound 7 0 (waits ∷ releases ∷ []) entered entered-IsReached

-- A thread that is not waited for may come to the control after it is gone,
abbrev detached : List OwnerCall
detached = starts 7 false ∷ releases ∷ []

abbrev gone : Process
gone = record {
  ctrl = none;
  started = 1;
  progress = update (λ i. waiting) 0 waiting;
  terminated = λ t. false;
}

gone-IsReached : IsReached detached [] gone
unfolding call start_thread release_ctrl with_ctrl create_thread_ctrl drop_thread
gone-IsReached = next (next begin (of_owner refl)) (of_owner refl)

gone-faulty : Step [] gone [] (stopped undefined)
unfolding static_thread_func with_ctrl
gone-faulty = enters {i = 0} (omega arith) refl

-- and `Release` before `WaitFor` ends the program.
released_early : call releases entered ≡ some (stopped aborted)
unfolding call release_ctrl with_ctrl drop_thread
released_early = refl
