-- ===== src/Console/Tests.antt =====
-- The console's manager on concrete events.
use dmtimer.Base.{stopped, ended, ℕ, ◌≡◌, refl, sym, false, none, some, List, [], ◌∷◌, Returns}
use mathlib.Core.Option.{none-ne-some}
use dmtimer.Console.{
  ConsoleMgr, new_console_mgr, Event, hooks, arrives, event, events, set_handler_hook, hook_signal,
}
use dmtimer.Console.Once.{first_close, events-first_close}

-- SIGINT comes without a sink, after the sink 5 is set, and again after the sink 6 is
abbrev signals : List Event
signals =
    hooks none (some 0)
    ∷ arrives 2
    ∷ hooks (some 5) (some 1)
    ∷ arrives 2
    ∷ hooks (some 6) (some 1)
    ∷ arrives 2
    ∷ []

events-first_close_example :
    Returns
      (λ (r : List ℕ × ConsoleMgr). r.0 ≡ first_close none signals)
      (events false signals (new_console_mgr none))
unfolding new_console_mgr
events-first_close_example =
    events-first_close false signals (new_console_mgr none)
      (
        (λ e. none-ne-some _ (sym e)),
        (
          (refl, refl),
          (
            (λ e. none-ne-some _ (sym e)),
            ((refl, refl), ((λ e. none-ne-some _ (sym e)), ((refl, refl), tt))),
          ),
        ),
      )
      refl

-- SIGTERM is not hooked and ends the program, and so does SIGINT before the call of `SetHandlerHook`.
unhooked :
    (events false (hooks (some 5) (some 0) ∷ arrives 15 ∷ []) (new_console_mgr none)
      ≡ stopped ended)
    × (events false (arrives 2 ∷ []) (new_console_mgr none) ≡ stopped ended)
unfolding new_console_mgr events event set_handler_hook hook_signal
unhooked = (refl, refl)

first_is_five : first_close none signals ≡ 5 ∷ []
first_is_five = refl
