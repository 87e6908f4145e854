-- ===== src/Longclock/Convert.antt =====
-- The conversions and comparisons of `longclock_t`, within and across their widths.
use cluster_glue_import.Prelude.{
  ℕ, ◌+◌, ◌*◌, ◌/◌, ◌%◌, ◌^◌, ◌<◌, ◌≤◌, ◌≡◌, ◌≢◌, ap, ◌∙◌, ◌==◌, arith, if◌then◌else◌, negsuc,
}
use cluster_glue_import.Longclock.{
  wide, msto_longclock, longclockto_ms, add_longclock, sub_longclock, cmp_longclock,
}

-- Subtraction undoes addition, also where the sum wraps around.
pub sub-add_longclock : (l r : ℕ) → l < wide → r < wide → sub_longclock (add_longclock l r) r ≡ l
unfolding sub_longclock add_longclock
sub-add_longclock l r h k = ground arith

-- Where `cmp_longclock` does not say that the first time is the earlier one, `sub_longclock` is the
-- difference.
pub sub_longclock-exact :
    (l r : ℕ) → l < wide → r < wide → cmp_longclock l r ≢ negsuc 0 → (sub_longclock l r + r ≡ l)
unfolding sub_longclock cmp_longclock
sub_longclock-exact l r h k c = ground arith

times_le : (x hz : ℕ) → hz ≤ 1000 → x * hz ≤ x * 1000
times_le x hz h = grind arith

parts : (ms hz : ℕ) → ms * hz ≡ 1000 * ((ms / 1000) * hz) + (ms % 1000) * hz
parts ms hz =
    let e : ms ≡ 1000 * (ms / 1000) + ms % 1000 = omega arith in
    let f : (1000 * (ms / 1000) + ms % 1000) * hz ≡ 1000 * ((ms / 1000) * hz) + (ms % 1000) * hz =
      omega arith in
    ap (λ (x : ℕ). x * hz) e ∙ f

-- Up to a thousand ticks a second, and for a time below 2 ^ 53 ms, nothing wraps around: the result
-- is the number of whole ticks in the time, or 1 where there is none.
pub msto_longclock-exact :
    (hz ms : ℕ)
    → hz ≤ 1000
    → 0 < ms
    → ms < 2 ^ 53
    → msto_longclock hz ms ≡ (if (ms * hz) / 1000 == 0 then 1 else (ms * hz) / 1000)
unfolding msto_longclock
msto_longclock-exact hz ms k m n =
    ground (arith, parts ms hz, times_le (ms / 1000) hz k, times_le (ms % 1000) hz k)

-- At a thousand ticks a second the two conversions are inverse.
pub longclockto_ms-msto_longclock :
    (ms : ℕ) → ms < 2 ^ 54 → longclockto_ms 1000 (msto_longclock 1000 ms) ≡ ms
unfolding longclockto_ms msto_longclock
longclockto_ms-msto_longclock ms h = ground arith
