-- ===== src/Longclock.antt =====
-- lib/clplumbing/longclock.c where `clock_t` has 32 bits and a longclock_t 64. What the call of
-- `times` returns and what it leaves in `errno` are arguments.
pub mod Ticks
pub mod Convert
mod Tests
use cluster_glue_import.Prelude.{
  ℕ, zero, suc, ◌+◌, ◌-◌, ◌*◌, ◌/◌, ◌%◌, ◌^◌, Bool, true, false, ◌&&◌, not, ltb, ◌==◌,
  if◌then◌else◌, ℤ, pos, negsuc,
}

-- `longclock_t` is `unsigned long long`.
abbrev pub wide : ℕ
wide = 2 ^ 64

-- The static variables of `time_longclock`.
pub record ClockState : Type 0 where
  pub calledbefore : Bool
  pub lasttimes : ℕ
  pub callcount : ℕ
  pub lc_wrapcount : ℕ

abbrev pub clock_start : ClockState
clock_start = record { calledbefore = false; lasttimes = 0; callcount = 0; lc_wrapcount = 0 }

-- `clock_t` of 32 bits.
abbrev pub clock_t_max : ℕ
clock_t_max = 2 ^ 32 - 1

abbrev pub wrapamount : ℕ
wrapamount = 2 ^ 32

abbrev pub minjump : ℕ
minjump = (clock_t_max / 100) * 99

-- `cl_times`: the value of `times`, or -errno where that is set, kept to the bits of a `clock_t`.
unfoldable pub cl_times : (ret errno : ℕ) → ℕ
cl_times ret errno = if not (errno == 0) then (2 ^ 32 - errno % 2 ^ 32) % 2 ^ 32 else ret % 2 ^ 32

-- What `time_longclock` makes of the value of `cl_times`. `lc_wrapcount` is a multiple of 2 ^ 32 and
-- `timesval` smaller, so `|` is `+`.
unfoldable pub clock_at : ClockState → (timesval : ℕ) → ClockState × ℕ
clock_at s timesval =
    let counted = record s { callcount = (s.callcount + 1) % wide } in
    if s.calledbefore && ltb timesval s.lasttimes
    then (if ltb (s.lasttimes - timesval) minjump then (counted, s.lc_wrapcount + timesval) else (
      record counted { lasttimes = timesval; lc_wrapcount = (s.lc_wrapcount + wrapamount) % wide },
      (s.lc_wrapcount + wrapamount) % wide + timesval,
    ))
    else (record counted { lasttimes = timesval; calledbefore = true }, s.lc_wrapcount + timesval)

abbrev pub time_longclock : ClockState → (ret errno : ℕ) → ClockState × ℕ
time_longclock s ret errno = clock_at s (cl_times ret errno)

-- The conversions, at `hz` ticks a second. An `unsigned long` has 64 bits too.
unfoldable pub msto_longclock : ℕ → ℕ → ℕ
msto_longclock hz ms =
    let secs = ms / 1000 in
    let msec = ms % 1000 in
    let result = ((secs * hz) % wide + (msec * hz % wide) / 1000) % wide in
    if ms == 0 then 0 else if result == 0 then 1 else result

unfoldable pub secsto_longclock : ℕ → ℕ → ℕ
secsto_longclock hz secs = secs * hz % wide

unfoldable pub longclockto_ms : ℕ → ℕ → ℕ
longclockto_ms hz t = if t == 0 then 0 else (t * 1000 % wide) / hz

unfoldable pub add_longclock : ℕ → ℕ → ℕ
add_longclock l r = (l + r) % wide

unfoldable pub sub_longclock : ℕ → ℕ → ℕ
sub_longclock l r = (l + wide - r) % wide

unfoldable pub cmp_longclock : ℕ → ℕ → ℤ
cmp_longclock l r = if ltb l r then negsuc 0 else if ltb r l then pos 1 else pos 0
