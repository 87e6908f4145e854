-- ===== src/Raexec/Tests.antt =====
-- Exit codes of agents on small inputs.
use cluster_glue_import.Prelude.{ℕ, ◌≡◌, refl, List, some, pos, codes, bytes_eq, false}
use cluster_glue_import.Lrmd.Ended.{Exit, exit_status}
use cluster_glue_import.Raexec.Ocf
use cluster_glue_import.Raexec.Lsb
use cluster_glue_import.Raexec.Hb
use cluster_glue_import.Raexec.Exited.{exit_status-reported}

abbrev exited : Exit
exited = record { signo = 0; timed_out = false; exitcode = pos 3; first_line = codes "stopped" }

abbrev same : List ℕ → List ℕ
same s = s

exit_status-reported_example :
    (exit_status Ocf.map_ra_retvalue exited ≡ pos 0)
    × (exit_status (λ r. Lsb.map_ra_retvalue r "status") exited ≡ pos 0)
    × (exit_status
          (λ r. Hb.map_ra_retvalue bytes_eq same r "status" (some (codes "stopped")))
          exited
        ≡ pos 0)
exit_status-reported_example =
    exit_status-reported bytes_eq same exited "status" (some (codes "stopped"))

-- A stopped service.
lsb_stopped : Lsb.map_ra_retvalue (pos 3) "status" ≡ pos 7
lsb_stopped = refl

-- The code 9 is let through.
ocf_nine : Ocf.map_ra_retvalue (pos 9) ≡ pos 9
ocf_nine = refl
