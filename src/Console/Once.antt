-- ===== src/Console/Once.antt =====
-- Which sink `HDMConsoleMgr` of include/dmconsole.h calls.
use mathlib.Core.Path.{subst}
use dmtimer.Base.{
  update, sym, Bool-cases, ℕ, ◌≡◌, ◌≢◌, refl, inl, inr, Bool, true, false, Option, none, some, List,
  [], ◌∷◌, Option-cases, done, Returns, returns, Returns-bind,
}
use dmtimer.Console.{
  ConsoleMgr, sigint, hook_signal, set_handler_hook, exchange_once, on_close_event,
  on_console_event, Event, hooks, arrives, event, events,
}

-- `signal` succeeds, and the signal that arrives is SIGINT, after it was hooked.
abbrev pub IsExpected : Bool → Event → Type 0
IsExpected hooked (hooks sink answer) = answer ≢ none
IsExpected hooked (arrives event_type) = (hooked ≡ true) × (event_type ≡ sigint)

-- Is SIGINT hooked after the event?
abbrev pub hooked_after : Bool → Event → Bool
hooked_after hooked (hooks sink answer) = true
hooked_after hooked (arrives event_type) = hooked

abbrev pub AllExpected : Bool → List Event → Type 0
AllExpected hooked [] = Unit {0}
AllExpected hooked (e ∷ es) = IsExpected hooked e × AllExpected (hooked_after hooked e) es

-- the sink that is set when the first signal arrives for which there is one
abbrev pub first_close : Option ℕ → List Event → List ℕ
first_close sink [] = []
first_close sink (hooks sink' answer ∷ es) = first_close sink' es
first_close none (arrives event_type ∷ es) = first_close none es
first_close (some s) (arrives event_type ∷ es) = s ∷ []

-- the step that an expected event makes
abbrev after : Event → ConsoleMgr → List ℕ × ConsoleMgr
after (hooks sink none) m = ([], m)
after (hooks sink (some h)) m =
    ([], record m { console_sink = sink; handler = some h; hooked = update m.hooked sigint true })
after (arrives event_type) m = on_close_event m

event-after :
    (ndebug : Bool) (e : Event) (m : ConsoleMgr)
    → IsExpected (m.hooked sigint) e
    → event ndebug e m ≡ done (after e m)
unfolding event set_handler_hook hook_signal on_console_event
event-after ndebug (hooks sink none) m x = elim (x refl) [ ]
event-after ndebug (hooks sink (some h)) m x = refl
event-after ndebug (arrives event_type) m x = rw (x.1, x.0) refl

after-spent :
    (e : Event) (m : ConsoleMgr)
    → IsExpected (m.hooked sigint) e
    → m.once ≡ false
    → ((after e m).0 ≡ []) × ((after e m).1.once ≡ false)
unfolding on_close_event exchange_once
after-spent (hooks sink none) m x spent = (refl, spent)
after-spent (hooks sink (some h)) m x spent = (refl, spent)
after-spent (arrives event_type) m x spent = elim (Option-cases m.console_sink) [
  | inl unset ↦ rw unset (refl, spent)
  | inr (s, set) ↦ rw (set, spent) (refl, refl)
]

after-hooked :
    (e : Event) (m : ConsoleMgr)
    → IsExpected (m.hooked sigint) e
    → (after e m).1.hooked sigint ≡ hooked_after (m.hooked sigint) e
unfolding on_close_event exchange_once
after-hooked (hooks sink none) m x = elim (x refl) [ ]
after-hooked (hooks sink (some h)) m x = refl
after-hooked (arrives event_type) m x = elim (Option-cases m.console_sink) [
  | inl unset ↦ rw unset refl
  | inr (s, set) ↦ elim (Bool-cases m.once) [
    | inl fresh ↦ rw (set, fresh) refl
    | inr spent ↦ rw (set, spent) refl
  ]
]

-- After the first call no sink is called.
events-spent :
    (ndebug : Bool) (es : List Event) (m : ConsoleMgr)
    → AllExpected (m.hooked sigint) es
    → m.once ≡ false
    → Returns (λ (r : List ℕ × ConsoleMgr). r.0 ≡ []) (events ndebug es m)
unfolding events
events-spent ndebug [] m xs spent = returns refl
events-spent ndebug (e ∷ es) m (x, xs) spent =
    let (silent, still) = after-spent e m x spent in
    rw (event-after ndebug e m x) (
      Returns-bind
        (events-spent ndebug es (after e m).1
          (subst (λ b. AllExpected b es) (sym (after-hooked e m x)) xs) still)
        λ r h. returns (rw (silent, h) refl))

-- If every call of `signal` succeeds, and the signals that arrive are SIGINT, the one that
-- `SetHandlerHook` hooks, after it has been hooked, then from a manager whose `m_bOnce` is still
-- set, any sequence of calls of `SetHandlerHook` and of signals returns and calls `OnCloseEvent` of
-- exactly one sink, once: the sink that is set when the first signal arrives with a sink set; and
-- of none, if there is no such signal. No signal ends the program and no assertion fails.
pub events-first_close :
    (ndebug : Bool) (es : List Event) (m : ConsoleMgr)
    → AllExpected (m.hooked sigint) es
    → m.once ≡ true
    → Returns
        (λ (r : List ℕ × ConsoleMgr). r.0 ≡ first_close m.console_sink es)
        (events ndebug es m)
unfolding events on_close_event exchange_once
events-first_close ndebug [] m xs fresh = returns refl
events-first_close ndebug (hooks sink none ∷ es) m (x, xs) fresh = elim (x refl) [ ]
events-first_close ndebug (hooks sink (some h) ∷ es) m (x, xs) fresh =
    rw (event-after ndebug (hooks sink (some h)) m x) (
      Returns-bind
        (events-first_close ndebug es
          (record m { console_sink = sink; handler = some h; hooked = update m.hooked sigint true })
          xs fresh)
        λ r h. returns h)
events-first_close ndebug (arrives n ∷ es) m (x, xs) fresh = elim (Option-cases m.console_sink) [
  | inl unset ↦
      rw (event-after ndebug (arrives n) m x, unset)
        (Returns-bind (rw unset at (events-first_close ndebug es m xs fresh)) λ r h. returns h)
  | inr (s, set) ↦
      rw (event-after ndebug (arrives n) m x, set, fresh)
        (Returns-bind
          (events-spent ndebug es (record m { console_sink = some s; once = false }) xs refl)
          λ r h. returns (rw h refl))
]
