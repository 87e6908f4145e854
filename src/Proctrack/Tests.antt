-- ===== src/Proctrack/Tests.antt =====
-- Tracked processes: the theorems where their hypotheses hold, and runs of the code.
use cluster_glue_import.Prelude.{
  ℕ, ◌≡◌, refl, Bool, true, false, List, [], ◌∷◌, ◌++◌, Option, none, some, pos, negsuc, HashTable,
  assoc_table, ==_iff, arith,
}
use cluster_glue_import.Lrmd.Perform.{Kill, kill_sequence}
use cluster_glue_import.Proctrack.{
  Proc, Effect, timeout_remove, procdied, Answer, sent, esrch, failed, signaled, pt_lognormal,
  same_pid, World, put, set_tracked_proc_timeouts, tracked_proc_timeout_function,
  report_proc_has_died, remove_tracked_proc_timeouts,
}
use cluster_glue_import.Proctrack.Signals.{signals}
use cluster_glue_import.Proctrack.Timeouts.{timeouts, pending}
use cluster_glue_import.Proctrack.Escalate.{timeouts-signals, timeouts-end, timeouts-kill_sequence}

abbrev procs : HashTable ℕ Proc same_pid
procs = assoc_table same_pid ==_iff

abbrev no_processes : World procs
no_processes = record { table = procs.new; full_privs = false; logging = true; debug = false }

abbrev process : Proc
process = record {
  isapgrp = true;
  loglevel = pt_lognormal;
  timerid = 0;
  timeoutseq = negsuc 0;
  killinfo = none;
}

abbrev one_process : World procs
one_process = put procs no_processes 7 process

abbrev kills : List Kill
kills = record { mstimeout = 100; signalno = 15 } ∷ record { mstimeout = 50; signalno = 9 } ∷ []

abbrev last_kill : Kill
last_kill = record { mstimeout = 50; signalno = 0 }

abbrev answers : List Answer
answers =
    record { killed = sent; timer = 2 }
    ∷ record { killed = failed; timer = 3 }
    ∷ record { killed = sent; timer = 4 }
    ∷ []

timeouts-signals_example :
    (w1 w' : World procs) × (added es : List Effect) × (rest : List ℕ) × (set_tracked_proc_timeouts
        procs one_process 7
        (kills ++ last_kill ∷ [])
        1
      ≡ some (w1, added))
    × (timeouts procs w1 7 answers ≡ some (w', es))
    × (signals es ++ rest ≡ 15 ∷ 9 ∷ [])
timeouts-signals_example =
    timeouts-signals procs one_process 7 process kills last_kill 1 answers refl refl
      (omega arith, (omega arith, tt)) (omega arith, (omega arith, (omega arith, tt))) (omega arith)

timeouts-end_example :
    (w1 w' : World procs) × (added es : List Effect) × (set_tracked_proc_timeouts procs one_process
        7
        (kills ++ last_kill ∷ [])
        1
      ≡ some (w1, added))
    × (timeouts procs w1 7 answers ≡ some (w', es))
    × (pending procs w' 7 ≡ false)
timeouts-end_example =
    timeouts-end procs one_process 7 process kills last_kill 1 answers refl refl
      (omega arith, (omega arith, tt)) (omega arith, (omega arith, (omega arith, tt))) (omega arith)
      (omega arith)

abbrev due_process : World procs
due_process =
    put procs no_processes 7 (record process {
      timerid = 1;
      timeoutseq = pos 0;
      killinfo = some (kills ++ last_kill ∷ []);
    })

abbrev privs : Option (World procs × List Effect) → Option Bool
privs none = none
privs (some r) = some (r.0.full_privs)

-- A process that is gone when it is to be killed leaves the daemon with all its privileges.
privileges_kept :
    privs (tracked_proc_timeout_function procs due_process 7 (record { killed = esrch; timer = 2 }))
    ≡ some true
unfolding tracked_proc_timeout_function
privileges_kept = refl

-- A process that dies while its timer runs: the timer is removed before the owner is told.
timer_removed :
    (report_proc_has_died procs due_process 7 (signaled 15) false).1
    ≡ timeout_remove 1 ∷ procdied 7 15 0 true ∷ []
unfolding report_proc_has_died remove_tracked_proc_timeouts
timer_removed = refl

timeouts-kill_sequence_example :
    (w1 w' : World procs) × (added es : List Effect) × (rest : List ℕ) × (set_tracked_proc_timeouts
        procs one_process 7
        (kill_sequence "ocf" (pos 20000))
        1
      ≡ some (w1, added))
    × (timeouts procs w1 7 answers ≡ some (w', es))
    × (signals es ++ rest ≡ 15 ∷ 9 ∷ [])
    × (pending procs w' 7 ≡ false)
timeouts-kill_sequence_example =
    timeouts-kill_sequence procs one_process 7 process "ocf" 19999 1 answers refl refl
      (omega arith, (omega arith, (omega arith, tt))) (omega arith) (omega arith)
