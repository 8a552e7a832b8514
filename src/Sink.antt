-- ===== src/Sink.antt =====
-- include/dmtimersink.h: the geometry of the wheel, the macro `DM_INDEX` and `CDMTimerElement`.
use dmtimer.Base.{ℕ, ◌+◌, ◌*◌, ◌/◌, ◌%◌, ◌^◌, Bool, true, false, Option, none, List, []}

abbrev pub tvn_bits : ℕ
tvn_bits = 6

abbrev pub tvr_bits : ℕ
tvr_bits = 8

abbrev pub tvn_size : ℕ
tvn_size = 2 ^ tvn_bits

abbrev pub tvr_size : ℕ
tvr_size = 2 ^ tvr_bits

-- `x & TVR_MASK` and `x & TVN_MASK`: the masks are a power of two less one.
abbrev pub tvr_mask : ℕ → ℕ
tvr_mask x = x % tvr_size

abbrev pub tvn_mask : ℕ → ℕ
tvn_mask x = x % tvn_size

-- `DM_INDEX(t, N)`
abbrev pub dm_index : ℕ → ℕ → ℕ
dm_index t n = tvn_mask (t / 2 ^ (tvr_bits + n * tvn_bits))

-- `CDMTimerElement`. `linked` stands for `m_stEntry.next != NULL`; which list the entry is on is
-- part of the wheel. Sinks, functions and the payload `m_oAny` are only moved and compared with
-- null, so each is a handle; `m_strCron` is the list of its bytes.
pub record Element : Type 0 where
  pub linked : Bool
  pub next_time : ℕ
  pub cd : ℕ
  pub id : ℕ
  pub timer_sink : Option ℕ
  pub fun_timer : Option ℕ
  pub any : Option ℕ
  pub cron : List ℕ
  pub erased : Bool
  pub exact : Bool

-- `CDMTimerElement::Reset`; the payload is left as it is.
unfoldable pub reset : Element → Element
reset e = record {
  linked = false;
  next_time = 0;
  cd = 0;
  id = 0;
  timer_sink = none;
  fun_timer = none;
  any = e.any;
  cron = [];
  erased = false;
  exact = false;
}

-- `CDMTimerElement::Kill`
unfoldable pub kill : Element → Element
kill e = record e { erased = true }
