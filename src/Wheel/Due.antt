-- ===== src/Wheel/Due.antt =====
-- When the entries of a slot are due: the window of times that each slot of the wheel stands for,
-- and that `AddTimerElement` chooses a slot whose window fits.
use dmtimer.Base.{
  ℕ, ◌+◌, ◌-◌, ◌*◌, ◌/◌, ◌%◌, ◌^◌, ◌≤◌, ◌<◌, ◌≡◌, refl, inl, inr, arith, tests, false, ltb, leb,
  Bool-cases, sub64, add64, if◌then◌else◌,
}
use dmtimer.Wheel.{Level, tv1, tv2, tv3, tv4, tv5, slot_of}

-- Slot `i` of a vector whose slots are `unit` ticks wide holds what expires in or behind the block
-- number `block`, which starts at `from` or later and less than a turn of the vector after `last`.
pub record Block (unit from last i expires : ℕ) : Type 0 where
  pub block : ℕ
  pub starts : from ≤ block * unit
  pub in_turn : block * unit < last + 64 * unit
  pub slot : block % 64 ≡ i
  pub reached : block * unit ≤ expires

-- An entry of `m_tv1` is in the slot of its very tick, within one turn.
pub record Tick (last i expires : ℕ) : Type 0 where
  pub not_past : last ≤ expires
  pub in_turn : expires < last + 256
  pub slot : expires % 256 ≡ i

-- `Due from last l i e`: an entry that expires at `e` may hang in slot `i` of vector `l`, when all
-- ticks below `last` are done and the blocks that start below `from` are spread out.
abbrev pub Due : ℕ → ℕ → Level → ℕ → ℕ → Type 0
Due from last tv1 i e = Tick last i e
Due from last tv2 i e = Block (2 ^ 8) from last i e
Due from last tv3 i e = Block (2 ^ 14) from last i e
Due from last tv4 i e = Block (2 ^ 20) from last i e
Due from last tv5 i e = Block (2 ^ 26) from last i e

abbrev pub size : Level → ℕ
size tv1 = 256
size tv2 = 64
size tv3 = 64
size tv4 = 64
size tv5 = 64

-- A time that the wheel takes for one in the future: not before `last`, and less than 2 ^ 63 on.
pub record Ahead (last e : ℕ) : Type 0 where
  pub from_last : last ≤ e
  pub below : e < 2 ^ 63

Block-at :
    (unit last e x : ℕ)
    → 0 < unit
    → last + unit ≤ x
    → x < last + 64 * unit
    → x ≤ e
    → Block unit (last + 1) last (x / unit % 64) e
Block-at unit last e x u lo hi le = record {
  block = x / unit;
  starts = omega arith;
  in_turn = omega arith;
  slot = refl;
  reached = omega arith;
}

-- At a time that is ahead the unsigned difference is the plain one, and its sign bit is clear.
sub64-Ahead : (e last : ℕ) → Ahead last e → sub64 e last ≡ e - last
sub64-Ahead e last a = omega arith

near : (e last : ℕ) → Ahead last e → leb (2 ^ 63) (e - last) ≡ false
near e last a = ground arith

clamp : (last : ℕ) → last < 2 ^ 63 → add64 0xffff_ffff last ≡ 0xffff_ffff + last
clamp last h = omega arith

-- The block of the fifth vector: a time more than 2 ^ 32 - 1 ticks ahead is clamped to that.
top-Block :
    (e last : ℕ)
    → Ahead last e
    → ltb (e - last) (2 ^ 26) ≡ false
    → Block
        (2 ^ 26)
        (last + 1)
        last
        ((if ltb 0xffff_ffff (e - last) then add64 0xffff_ffff last else e) / 2 ^ 26 % 64)
        e
top-Block e last a far = elim (Bool-cases (ltb 0xffff_ffff (e - last))) [
  | inl h ↦
      rw (h, clamp last (omega arith))
        (Block-at (2 ^ 26) last e (0xffff_ffff + last) (omega arith) (omega arith) (omega arith)
          (omega tests))
  | inr h ↦
      rw h (Block-at (2 ^ 26) last e e (omega arith) (ground arith) (ground arith) (omega arith))
]

-- `AddTimerElement` puts an element that expires at `last` or later, and below 2 ^ 63, into a slot
-- where it is due: an entry of `m_tv1` into the slot of its tick, any other into a block that
-- starts behind `last`.
pub slot_of-Due :
    (e last : ℕ) → Ahead last e → Due (last + 1) last (slot_of e last).0 (slot_of e last).1 e
unfolding slot_of
slot_of-Due e last a = rw (sub64-Ahead e last a) (elim (Bool-cases (ltb (e - last) 256)) [
  | inl h ↦ rw h (omega tests)
  | inr h1 ↦ rw h1 (elim (Bool-cases (ltb (e - last) (2 ^ 14))) [
    | inl h ↦
        rw h (Block-at (2 ^ 8) last e e (omega arith) (ground arith) (ground arith) (omega arith))
    | inr h2 ↦ rw h2 (elim (Bool-cases (ltb (e - last) (2 ^ 20))) [
      | inl h ↦
          rw h
            (Block-at (2 ^ 14) last e e (omega arith) (ground arith) (ground arith) (omega arith))
      | inr h3 ↦ rw h3 (elim (Bool-cases (ltb (e - last) (2 ^ 26))) [
        | inl h ↦
            rw h
              (Block-at (2 ^ 20) last e e (omega arith) (ground arith) (ground arith) (omega arith))
        | inr h4 ↦ rw (h4, near e last a) (top-Block e last a h4)
      ])
    ])
  ])
])

-- The index that `AddTimerElement` computes is one of the slots of the vector that it chooses,
-- whatever the times.
pub slot_of-lt-size : (e last : ℕ) → (slot_of e last).1 < size (slot_of e last).0
unfolding slot_of
slot_of-lt-size e last = ground arith

-- An element that expires before `last`, by 2 ^ 63 at most, goes to the slot of the tick `last` in
-- `m_tv1`, if `last` is a 64-bit number.
slot_of-past :
    (e last : ℕ) → e < last → last ≤ e + 2 ^ 63 → last < 2 ^ 64 → slot_of e last ≡ (tv1, last % 256)
unfolding slot_of
slot_of-past e last h k m = ground arith

-- What is due at a later start of the blocks is due at an earlier one.
Block-mono :
    (unit from from' last i e : ℕ)
    → from ≤ from'
    → Block unit from' last i e
    → Block unit from last i e
Block-mono unit from from' last i e h d = record {
  block = d.block;
  starts = omega arith;
  in_turn = d.in_turn;
  slot = d.slot;
  reached = d.reached;
}

pub Due-mono :
    (l : Level) (from from' last i e : ℕ)
    → from ≤ from'
    → Due from' last l i e
    → Due from last l i e
Due-mono tv1 from from' last i e h d = d
Due-mono tv2 from from' last i e h d = Block-mono _ from from' last i e h d
Due-mono tv3 from from' last i e h d = Block-mono _ from from' last i e h d
Due-mono tv4 from from' last i e h d = Block-mono _ from from' last i e h d
Due-mono tv5 from from' last i e h d = Block-mono _ from from' last i e h d

-- Every entry of a slot expires at `from` or later, if `from` is not behind the last tick.
pub Due-le : (l : Level) (from last i e : ℕ) → from ≤ last → Due from last l i e → from ≤ e
Due-le tv1 from last i e h d = omega arith
Due-le tv2 from last i e h d = omega arith
Due-le tv3 from last i e h d = omega arith
Due-le tv4 from last i e h d = omega arith
Due-le tv5 from last i e h d = omega arith

Block-shift :
    (unit from last t i e : ℕ) → last ≤ t → Block unit from last i e → Block unit from t i e
Block-shift unit from last t i e h d = record {
  block = d.block;
  starts = d.starts;
  in_turn = omega arith;
  slot = d.slot;
  reached = d.reached;
}

-- What is due at a tick is due at a later tick that is not past it.
pub Due-shift :
    (l : Level) (from last t i e : ℕ) → last ≤ t → t ≤ e → Due from last l i e → Due from t l i e
Due-shift tv1 from last t i e h k d = omega arith
Due-shift tv2 from last t i e h k d = Block-shift _ from last t i e h d
Due-shift tv3 from last t i e h k d = Block-shift _ from last t i e h d
Due-shift tv4 from last t i e h k d = Block-shift _ from last t i e h d
Due-shift tv5 from last t i e h k d = Block-shift _ from last t i e h d

-- A slot where something is due is one of its vector.
pub Due-lt-size : (l : Level) (from last i e : ℕ) → Due from last l i e → i < size l
Due-lt-size tv1 from last i e d = omega arith
Due-lt-size tv2 from last i e d = omega arith
Due-lt-size tv3 from last i e d = omega arith
Due-lt-size tv4 from last i e d = omega arith
Due-lt-size tv5 from last i e d = omega arith
