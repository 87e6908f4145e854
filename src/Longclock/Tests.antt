-- ===== src/Longclock/Tests.antt =====
-- The clock at concrete ticks.
use cluster_glue_import.Prelude.{inl, inr, ◌+◌, ◌-◌, ◌^◌, ◌≡◌, refl, true, arith}
use cluster_glue_import.Longclock.{
  ClockState, clock_start, time_longclock, msto_longclock, longclockto_ms, add_longclock,
  sub_longclock, cmp_longclock,
}
use cluster_glue_import.Longclock.Ticks.{InStep, Reports, first_call, next_call}
use cluster_glue_import.Longclock.Convert.{
  sub-add_longclock, sub_longclock-exact, msto_longclock-exact, longclockto_ms-msto_longclock,
}

first_call_example :
    InStep 0 7 (time_longclock clock_start 7 0).0 × ((time_longclock clock_start 7 0).1 ≡ 7)
unfolding Reports
first_call_example = first_call 7 7 0 (inl (refl, refl))

-- Ten ticks before the counter wraps.
abbrev late : ClockState
late = record { calledbefore = true; lasttimes = 2 ^ 32 - 10; callcount = 1; lc_wrapcount = 0 }

late-InStep : InStep 0 (2 ^ 32 - 10) late
late-InStep = record {
  called = refl;
  last = refl;
  wraps = refl;
  aligned = refl;
  begun = omega arith;
}

-- Ten ticks before the wrap, and five ticks before it, which `times` reports through `errno`.
next_call_example :
    InStep 0 (2 ^ 32 - 5) (time_longclock late (2 ^ 32 - 1) 5).0
    × ((time_longclock late (2 ^ 32 - 1) 5).1 ≡ 2 ^ 32 - 5)
unfolding Reports
next_call_example =
    next_call 0 (2 ^ 32 - 10) (2 ^ 32 - 5) (2 ^ 32 - 1) 5 late late-InStep
      (inr (omega arith, omega arith, refl)) (omega arith) (omega arith) (omega arith)

after_wrap :
    InStep 0 (2 ^ 32 + 10) (time_longclock late 10 0).0
    × ((time_longclock late 10 0).1 ≡ 2 ^ 32 + 10)
unfolding Reports
after_wrap =
    next_call 0 (2 ^ 32 - 10) (2 ^ 32 + 10) 10 0 late late-InStep (inl (refl, refl)) (omega arith)
      (omega arith) (omega arith)

sub-add_longclock_example : sub_longclock (add_longclock (2 ^ 64 - 1) 5) 5 ≡ 2 ^ 64 - 1
sub-add_longclock_example = sub-add_longclock (2 ^ 64 - 1) 5 (omega arith) (omega arith)

msto_longclock-exact_example : msto_longclock 100 1234 ≡ 123
msto_longclock-exact_example =
    msto_longclock-exact 100 1234 (omega arith) (omega arith) (omega arith)

longclockto_ms-msto_longclock_example : longclockto_ms 1000 (msto_longclock 1000 77) ≡ 77
longclockto_ms-msto_longclock_example = longclockto_ms-msto_longclock 77 (omega arith)

sub_longclock-exact_example : sub_longclock 12 5 + 5 ≡ 12
unfolding cmp_longclock
sub_longclock-exact_example = sub_longclock-exact 12 5 (omega arith) (omega arith) (λ e. absurd cc)
