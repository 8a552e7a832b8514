-- ===== src/World/Ready/Tick.antt =====
-- The head of a round of `Run`: the cascades, and the slot of the tick, which `Run` takes.
use dmtimer.Base.{ℕ, ◌+◌, ◌<◌, ◌≡◌, ◌≢◌, refl, sym, ◌∙◌, inl, inr, List, [], arith, count}
use dmtimer.Sink.{tvr_mask}
use dmtimer.Wheel.{Level, tv1, tv2, tv3, tv4, tv5, Wheel, detach, cascades}
use dmtimer.Wheel.Due.{Due, Due-shift}
use dmtimer.Wheel.Occurs.{occurs-detach, occurs-cascades}
use dmtimer.Wheel.Timely.{expiry, IsTimely, set_slot-cases}
use dmtimer.Wheel.Kept.{SameBut, expiry-SameBut, cascades-SameBut}
use dmtimer.Wheel.Cascade.{stage, cascades-IsTimely}
use dmtimer.World.{World}
use dmtimer.World.Ready.{Frame, IsReady, IsSane-bare, IsDue, places}

IsDue-IsTimely : (w : Wheel) → IsDue w.last_time w → IsTimely (stage 1 w.last_time) w
IsDue-IsTimely w d = record { due = due; soon = d.soon }
  where
    due :
        (l : Level) (i p : ℕ)
        → 0 < count p (w.slots l i)
        → Due (stage 1 w.last_time l) w.last_time l i (expiry w p)
    due tv1 i p h = d.due tv1 i p h
    due tv2 i p h = d.due tv2 i p h
    due tv3 i p h = d.due tv3 i p h
    due tv4 i p h = d.due tv4 i p h
    due tv5 i p h = d.due tv5 i p h

-- An entry of the wheel after the cascades, outside the slot of the tick, is due when the tick is done.
Due-later :
    (last : ℕ) (l : Level) (i e : ℕ)
    → Due (stage 5 last l) last l i e
    → ¬ ((l ≡ tv1) × (i ≡ tvr_mask last))
    → Due (last + 1) (last + 1) l i e
Due-later last tv1 i e d out =
    Due-shift tv1 last last (last + 1) i e (omega arith) (omega (arith, not_now)) d
  where
    not_now : e ≢ last
    not_now now = out (refl, omega arith)
Due-later last tv2 i e d out =
    Due-shift tv2 (last + 1) last (last + 1) i e (omega arith) (omega arith) d
Due-later last tv3 i e d out =
    Due-shift tv3 (last + 1) last (last + 1) i e (omega arith) (omega arith) d
Due-later last tv4 i e d out =
    Due-shift tv4 (last + 1) last (last + 1) i e (omega arith) (omega arith) d
Due-later last tv5 i e d out =
    Due-shift tv5 (last + 1) last (last + 1) i e (omega arith) (omega arith) d

-- The elements of the slot of the tick expire at the tick.
Due-now : (last i e : ℕ) → Due (stage 5 last tv1) last tv1 i e → i ≡ tvr_mask last → e ≡ last
Due-now last i e d now = omega arith

-- What hangs in the wheel when `Run` has taken the slot of the tick.
detach-entries :
    (w : Wheel) (last : ℕ) (l : Level) (i p : ℕ)
    → 0 < count p ((detach tv1 (tvr_mask last) w).1.slots l i)
    → (0 < count p (w.slots l i)) × (¬ ((l ≡ tv1) × (i ≡ tvr_mask last)))
unfolding detach
detach-entries w last l i p h = elim (set_slot-cases w.slots tv1 (tvr_mask last) [] l i) [
  | inl (el, ei, es) ↦ absurd (none (rw es at h))
  | inr (inl (el, ni, es)) ↦ (rw es at h, λ c. ni c.1)
  | inr (inr (nl, es)) ↦ (rw es at h, λ c. nl c.0)
]
  where
    none : ¬ (0 < count p [])
    none c = omega arith

module _ {frame : Frame} {w : World} (ready : IsReady frame frame.last [] w)
    (behind : frame.last < frame.cur) where
  abbrev now : ℕ
  now = w.wheel.last_time

  abbrev full : Wheel
  full = cascades w.wheel

  abbrev pub taken : List ℕ × Wheel
  taken = detach tv1 (tvr_mask now) full

  timely : IsTimely (stage 1 now) w.wheel
  timely = IsDue-IsTimely w.wheel (rw (sym ready.at_last) at ready.due)

  same : SameBut w.wheel full
  same = cascades-SameBut w.wheel

  entry :
      (l : Level) (i p : ℕ)
      → 0 < count p (full.slots l i)
      → Due (stage 5 now l) now l i (expiry w.wheel p)
  entry l i p h =
      rw (same.last_time, expiry-SameBut p same) at ((cascades-IsTimely w.wheel timely).due l i p h)

  -- Every element that had a place still has it: in the wheel or in the work list.
  pub taken-places : (q : ℕ) → places q taken.0 (record w { wheel = taken.1 }) ≡ places q [] w
  taken-places q =
      omega
        (arith, occurs-detach q tv1 (tvr_mask now) full (omega arith), occurs-cascades q w.wheel)

  taken_later :
      (l : Level) (i p : ℕ)
      → 0 < count p (taken.1.slots l i)
      → Due (frame.last + 1) (frame.last + 1) l i (expiry w.wheel p)
  taken_later l i p h =
      let (inside, outside) = detach-entries full now l i p h in
      rw ready.at_last at (Due-later now l i _ (entry l i p inside) outside)

  taken_now : (p : ℕ) → 0 < count p taken.0 → expiry w.wheel p ≡ frame.last
  unfolding detach
  taken_now p h = Due-now now _ _ (entry tv1 (tvr_mask now) p h) refl ∙ ready.at_last

  -- `Run` takes the slot of the tick after the cascades: then the tick is done but for these elements.
  pub take-IsReady : IsReady frame (frame.last + 1) taken.0 (record w { wheel = taken.1 })
  unfolding detach
  take-IsReady = record {
    pools = ready.pools;
    due = record {
      due = λ l i p h. rw (expiry-SameBut p same) (taken_later l i p h);
      soon = λ l i p h.
          (cascades-IsTimely w.wheel timely).soon l i p (detach-entries full now l i p h).0;
    };
    once = λ q. rw (taken-places q) (ready.once q);
    live = λ q h. ready.live q (rw (taken-places q) at h);
    sane = λ q h. IsSane-bare (same.elements q) (ready.sane q (rw (taken-places q) at h));
    tick = omega (arith, same.last_time, ready.at_last);
    near = omega (arith, same.last_time, ready.at_last);
    clock = omega (arith, behind, ready.passed);
    passed = ready.passed;
    bounded = ready.bounded;
    at_last = same.last_time ∙ ready.at_last;
    at_cur = ready.at_cur;
    held_at = λ q h. expiry-SameBut q same ∙ taken_now q h;
  }
