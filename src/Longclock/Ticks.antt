-- ===== src/Longclock/Ticks.antt =====
-- `time_longclock` against a counter that does not wrap.
use cluster_glue_import.Prelude.{◌⊎◌, inl, inr, ℕ, ◌-◌, ◌%◌, ◌^◌, ◌<◌, ◌≤◌, ◌≡◌, true, arith}
use cluster_glue_import.Longclock.{
  wide, ClockState, clock_start, wrapamount, minjump, cl_times, clock_at, time_longclock,
}

-- The state after a call at tick `t`, where the clock began at tick `base`, a multiple of 2 ^ 32.
pub record InStep (base t : ℕ) (s : ClockState) : Type 0 where
  pub called : s.calledbefore ≡ true
  pub last : s.lasttimes ≡ t % 2 ^ 32
  pub wraps : s.lc_wrapcount ≡ (t - base) - (t - base) % 2 ^ 32
  pub aligned : base % 2 ^ 32 ≡ 0
  pub begun : base ≤ t

-- What `times` answers at tick `t`, kept to 32 bits: the tick, or, for the last 4096 values before
-- a wrap, its distance from the wrap in `errno`, as the C library does on Linux.
unfoldable pub Reports : (t ret errno : ℕ) → Type 0
Reports t ret errno =
    ((errno ≡ 0) × (ret % 2 ^ 32 ≡ t % 2 ^ 32))
    ⊎ ((0 < errno) × (errno ≤ 4096) × (t % 2 ^ 32 ≡ 2 ^ 32 - errno))

cl_times-Reports : (t ret errno : ℕ) → Reports t ret errno → cl_times ret errno ≡ t % 2 ^ 32
unfolding cl_times Reports
cl_times-Reports t ret errno (inl (e, h)) = ground arith
cl_times-Reports t ret errno (inr (h, k, e)) = ground arith

start_at :
    (t : ℕ)
    → InStep (t - t % 2 ^ 32) t (clock_at clock_start (t % 2 ^ 32)).0
      × ((clock_at clock_start (t % 2 ^ 32)).1 ≡ t % 2 ^ 32)
unfolding clock_at
start_at t = ground arith

-- The first call: the clock starts within the current round of the counter.
pub first_call :
    (t ret errno : ℕ)
    → Reports t ret errno
    → InStep (t - t % 2 ^ 32) t (time_longclock clock_start ret errno).0
      × ((time_longclock clock_start ret errno).1 ≡ t % 2 ^ 32)
first_call t ret errno r = rw (cl_times-Reports t ret errno r) (start_at t)

at_next :
    (base t u : ℕ) (s : ClockState)
    → InStep base t s
    → t ≤ u
    → u - t ≤ wrapamount - minjump
    → u - base < wide
    → InStep base u (clock_at s (u % 2 ^ 32)).0 × ((clock_at s (u % 2 ^ 32)).1 ≡ u - base)
unfolding clock_at
at_next base t u s i h k m = ground arith

-- The clock was called at tick `t` and keeps the time since tick `base`, and `times` reports tick
-- `u` as it is or, for the last 4096 values before a wrap, through `errno`. If `u` is within a
-- hundredth of a round after `t` and less than 2 ^ 64 ticks after `base`, then `time_longclock`
-- returns the ticks since `base`, also across a wrap of the counter, and keeps this time.
pub next_call :
    (base t u ret errno : ℕ) (s : ClockState)
    → InStep base t s
    → Reports u ret errno
    → t ≤ u
    → u - t ≤ wrapamount - minjump
    → u - base < wide
    → InStep base u (time_longclock s ret errno).0 × ((time_longclock s ret errno).1 ≡ u - base)
next_call base t u ret errno s i r h k m =
    rw (cl_times-Reports u ret errno r) (at_next base t u s i h k m)
