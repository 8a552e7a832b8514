-- ===== src/Util/Formats.antt =====
-- include/dmutil.h: ports in network order on a little-endian machine, dates as text, and the work path. `localtime_r`
-- and `mktime` are the calendar of Cron; `strftime` and `sscanf` with the formats of the code are parameters.
use dmtimer.Base.{
  ℕ, ◌+◌, ◌*◌, ◌/◌, ◌%◌, ◌^◌, ◌<◌, ◌≡◌, Option, none, some, List, [], ◌==◌, if◌then◌else◌, sub32,
  arith, Outcome, done, stopped, undefined, Returns, returns, leb, length,
}
use dmtimer.Cron.Date.{Tm, Calendar, add32}
use dmtimer.Util.{max_path, get_exe_name}

-- `DMFormatPort( unsigned short )`
unfoldable pub format_port : ℕ → ℕ
format_port port = port % 2 ^ 8 * 2 ^ 8 + port / 2 ^ 8

-- `DMGetWorkPath`, when `getcwd` fails or finds a path, which it writes if it has room for the zero behind it;
-- otherwise nothing is written to the bytes that are copied
unfoldable pub get_work_path : Option (List ℕ) → Outcome (List ℕ)
get_work_path none = stopped undefined
get_work_path (some path) = if leb max_path (length path) then stopped undefined else done path

-- `DMGetExeNameString`
unfoldable pub get_exe_name_string : Option (List ℕ) → Outcome (List ℕ)
get_exe_name_string link = get_exe_name link

-- `DMFormatDateTime( time_t )`: `print` gives what `strftime` writes, if it fits the 128 bytes.
unfoldable pub format_date_time : Calendar → (Tm → Option (List ℕ)) → ℕ → Outcome (List ℕ)
format_date_time cal print t = elim (cal.localtime t) [
  | none ↦ done []
  | some tm ↦ elim (print tm) [ none ↦ stopped undefined | some text ↦ done text ]
]

-- `DMFormatDateTime( const std::string& )`: `scan` gives how many numbers `sscanf` reads, and the date that it has
-- written them to.
unfoldable pub parse_date_time : Calendar → (List ℕ → ℕ × Tm) → List ℕ → ℕ
parse_date_time cal scan text =
    let (read, tm) = scan text in
    if read == 6
    then (cal.mktime (record tm { year = sub32 tm.year 1900; mon = sub32 tm.mon 1 })).0
    else 0

-- The network order of the network order is the port.
format_port-format_port : (port : ℕ) → port < 2 ^ 16 → format_port (format_port port) ≡ port
unfolding format_port
format_port-format_port port h = omega arith

-- the date that `sscanf` writes: the year and the month as they are printed, and nothing of the other fields
abbrev scanned : Tm → Tm
scanned tm = record tm {
  year = add32 tm.year 1900;
  mon = add32 tm.mon 1;
  wday = 0;
  yday = 0;
  isdst = 0;
}

-- A time that is printed and read again is the same time, if `sscanf` reads the six numbers that `strftime` prints,
-- and `mktime` of the local date without daylight saving time is the time.
parse_date_time-format_date_time :
    (cal : Calendar) (print : Tm → Option (List ℕ)) (scan : List ℕ → ℕ × Tm) (t : ℕ) (tm : Tm)
    (text : List ℕ)
    → cal.localtime t ≡ some tm
    → (cal.mktime (record tm { wday = 0; yday = 0; isdst = 0 })).0 ≡ t
    → tm.year < 2 ^ 32
    → tm.mon < 2 ^ 32
    → print tm ≡ some text
    → scan text ≡ (6, scanned tm)
    → Returns (λ (text : List ℕ). parse_date_time cal scan text ≡ t) (format_date_time cal print t)
unfolding parse_date_time format_date_time
parse_date_time-format_date_time cal print scan t tm text local regular year mon printed read =
    let year_back : sub32 (add32 tm.year 1900) 1900 ≡ tm.year = omega (arith, year) in
    let mon_back : sub32 (add32 tm.mon 1) 1 ≡ tm.mon = omega (arith, mon) in
    rw (format_date_time, local, printed)
      (returns (rw (parse_date_time, read, year_back, mon_back) regular))
