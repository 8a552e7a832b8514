-- ===== src/Console.antt =====
-- include/dmconsole.h: `HDMConsoleMgr`, which passes the first request to end the program on to a sink.
pub mod Once
mod Tests
use dmtimer.Base.{
  update, ended, ℕ, ◌≡◌, Bool, true, false, Option, none, some, List, [], ◌∷◌, ◌++◌, ◌==◌, ◌||◌,
  if◌then◌else◌, Outcome, done, stopped, aborted, assert, ◌>>=◌,
}

-- the signals of Linux: SIGINT, SIGILL, SIGABRT, SIGFPE, SIGSEGV, SIGTERM
abbrev is_close_event : ℕ → Bool
is_close_event n = (n == 2) || (n == 4) || (n == 8) || (n == 11) || (n == 15) || (n == 6)

-- SIGINT
abbrev pub sigint : ℕ
sigint = 2

-- `HDMConsoleMgr`, and the signals whose handler is `OnConsoleEvent`. A sink and a handler are numbers, a sink
-- `none` is NULL, a handler `none` is `SIG_ERR`.
pub record ConsoleMgr : Type 0 where
  pub handler : Option ℕ
  pub console_sink : Option ℕ
  pub once : Bool
  pub hooked : ℕ → Bool

-- `HDMConsoleMgr()`, with the handler that nothing has been written to
unfoldable pub new_console_mgr : Option ℕ → ConsoleMgr
new_console_mgr handler = record {
  handler = handler;
  console_sink = none;
  once = true;
  hooked = λ n. false;
}

-- `signal( n, &HDMConsoleMgr::OnConsoleEvent )`, when it returns `answer`: `SIG_ERR`, or the handler before
unfoldable pub hook_signal : ℕ → Option ℕ → ConsoleMgr → ConsoleMgr
hook_signal n answer m = elim answer [
  | none ↦ record m { handler = none }
  | some h ↦ record m { handler = some h; hooked = update m.hooked n true }
]

-- `SetHandlerHook`, when `signal` returns `answer`
unfoldable pub set_handler_hook : Bool → Option ℕ → Option ℕ → ConsoleMgr → Outcome ConsoleMgr
set_handler_hook ndebug sink answer m =
    let m' = hook_signal sigint answer (record m { console_sink = sink }) in
    elim answer [ none ↦ if ndebug then done m' else stopped aborted | some h ↦ done m' ]

-- `compare_exchange_strong( true, false )`
unfoldable pub exchange_once : ConsoleMgr → Bool × ConsoleMgr
exchange_once m = if m.once then (true, record m { once = false }) else (false, m)

-- `OnCloseEvent`: the sinks whose `OnCloseEvent` it calls
unfoldable pub on_close_event : ConsoleMgr → List ℕ × ConsoleMgr
on_close_event m = elim (m.console_sink) [
  | none ↦ ([], m)
  | some sink ↦ let (first, m') = exchange_once m in if first then (sink ∷ [], m') else ([], m')
]

-- `OnConsoleEvent`
unfoldable pub on_console_event : Bool → ℕ → ConsoleMgr → Outcome (List ℕ × ConsoleMgr)
on_console_event ndebug event_type m =
    if is_close_event event_type
    then done (on_close_event m)
    else if ndebug
    then done ([], m)
    else stopped aborted

-- What happens to the manager: a sink is set, when `signal` answers, or one of the six signals arrives. A signal that
-- is not hooked ends the program, as is the default.
pub data Event : Type 0 where
  hooks : Option ℕ → Option ℕ → Event
  arrives : ℕ → Event

unfoldable pub event : Bool → Event → ConsoleMgr → Outcome (List ℕ × ConsoleMgr)
event ndebug (hooks sink answer) m = (do m' ← set_handler_hook ndebug sink answer m; done ([], m'))
event ndebug (arrives event_type) m =
    if m.hooked event_type then on_console_event ndebug event_type m else stopped ended

-- The events in their order, and the sinks that they call
unfoldable pub events : Bool → List Event → ConsoleMgr → Outcome (List ℕ × ConsoleMgr)
events ndebug [] m = done ([], m)
events ndebug (e ∷ es) m = (do
  (calls, m1) ← event ndebug e m
  (more, m2) ← events ndebug es m1
  done (calls ++ more, m2))
