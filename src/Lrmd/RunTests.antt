-- ===== src/Lrmd/RunTests.antt =====
-- The end of a process and a request (lrm/lrmd/lrmd.c) at concrete inputs.
use cluster_glue_import.Prelude.{
  ℕ, ◌≡◌, refl, Bool, true, false, List, [], ◌∷◌, Option, some, arith, codes, String, ℤ, pos,
  negsuc, bytes_eq,
}
use cluster_glue_import.Message.{HaMsg, empty, field, string, cl_get_string, cl_get_value}
use cluster_glue_import.Message.Netstring.{digits}
use cluster_glue_import.Message.Scan.{scan_digits, sscanf_int}
use cluster_glue_import.Lrmd.Messages.{
  lrm_op_timeout, everytime, f_lrm_rid, f_lrm_interval, f_lrm_timeout, f_lrm_delay, f_lrm_targetrc,
}
use cluster_glue_import.Lrmd.Named.{strings_named, fits_name}
use cluster_glue_import.Lrmd.HaMessages.{Named, int_of, text_of, write_text, append_text}
use cluster_glue_import.Lrmd.HaFields.{write_text-some, int_of-write_text, int_of-append_text}
use cluster_glue_import.Lrmd.Ops.{Rsc}
use cluster_glue_import.Lrmd.Sample.{
  rounds, fields, rsc_of, calm, monitor, start, no_field, overflowed, numbered, has_target,
}
use cluster_glue_import.Lrmd.Ended.{Exit, ProcEnded, on_ra_proc_finished}
use cluster_glue_import.Lrmd.Ended.Told.{Told, on_ra_proc_finished_lem}
use cluster_glue_import.Lrmd.Request.Queued.{Accepted, on_msg_perform_op_lem}

-- A plugin that gives the exit code back, and texts that are not numbers.
abbrev plugins : String → Option (ℤ → ℤ)
plugins c = some (λ code. code)

abbrev add_string : Bool → Named → String → List ℕ → Option Named
add_string = append_text no_field overflowed

abbrev mod_string : Bool → Named → String → String → Option Named
mod_string = write_text no_field overflowed

abbrev killed : Exit
killed = record { signo = 9; timed_out = true; exitcode = pos 0; first_line = codes "late" }

on_ra_proc_finished_lem_example :
    (p : ProcEnded fields add_string) × (on_ra_proc_finished fields add_string plugins calm rounds 4
        (rsc_of (monitor ∷ start ∷ []) [])
        1
        monitor
        killed
      ≡ some p)
    × Told fields add_string
        (int_of-append_text no_field overflowed)
        calm
        (λ i. refl)
        (rsc_of (monitor ∷ start ∷ []) [])
        monitor
        everytime
        lrm_op_timeout
        (negsuc 1)
        4
        p
on_ra_proc_finished_lem_example =
    on_ra_proc_finished_lem fields add_string (int_of-append_text no_field overflowed) calm
      (λ i. refl) plugins (λ code. code) rounds 4 (rsc_of (monitor ∷ start ∷ []) []) 1 monitor
      killed everytime refl refl has_target refl (λ i. record { mem = λ j. refl; started = refl })
      (
        record { weight = omega arith; target = everytime; has_target = has_target },
        (record { weight = omega arith; target = everytime; has_target = has_target }, tt),
      )
      (omega arith)

-- A request to monitor the resource in two minutes' intervals.
abbrev request_fields : HaMsg
request_fields = field (codes f_lrm_rid) (string (codes "ip")) (
    numbered f_lrm_interval (pos 120000) (
      numbered f_lrm_timeout (pos 120000)
        (numbered f_lrm_delay (pos 0) (numbered f_lrm_targetrc everytime empty))))

request_named : strings_named request_fields ≡ true
unfolding strings_named fits_name bytes_eq
request_named = refl

abbrev request : Named
request = record { msg = request_fields; strings = request_named }

request_rid : fields.value request f_lrm_rid ≡ some (codes "ip")
unfolding text_of cl_get_string cl_get_value bytes_eq
request_rid = refl

request_interval : fields.value_int request f_lrm_interval ≡ some (pos 120000)
unfolding int_of cl_get_string cl_get_value bytes_eq scan_digits sscanf_int digits
request_interval = refl

request_timeout : fields.value_int request f_lrm_timeout ≡ some (pos 120000)
unfolding int_of cl_get_string cl_get_value bytes_eq scan_digits sscanf_int digits
request_timeout = refl

request_delay : fields.value_int request f_lrm_delay ≡ some (pos 0)
unfolding int_of cl_get_string cl_get_value bytes_eq scan_digits sscanf_int digits
request_delay = refl

request_target : fields.value_int request f_lrm_targetrc ≡ some everytime
unfolding int_of cl_get_string cl_get_value bytes_eq scan_digits sscanf_int digits
request_target = refl

abbrev counted : Rsc fields → Bool
counted rsc = false

on_msg_perform_op_lem_example :
    Accepted fields mod_string
      (write_text-some no_field overflowed)
      (int_of-write_text no_field overflowed)
      counted
      calm
      (λ i. refl)
      rounds
      4
      50
      "crmd"
      request
      (rsc_of (start ∷ []) [])
      6
      0
      (pos 120000)
      (pos 120000)
      (pos 0)
      everytime
      (codes "ip")
      request_rid
      request_interval
      request_timeout
      request_delay
      request_target
      refl
on_msg_perform_op_lem_example =
    on_msg_perform_op_lem fields mod_string (write_text-some no_field overflowed)
      (int_of-write_text no_field overflowed) counted calm (λ i. refl) rounds 4 50 "crmd" request
      (rsc_of (start ∷ []) []) 6 0 (pos 120000) (pos 120000) (pos 0) everytime (codes "ip")
      request_rid request_interval request_timeout request_delay request_target refl
      (λ i. record { mem = λ j. refl; started = refl })
      (record { weight = omega arith; target = everytime; has_target = has_target }, tt)
      (omega arith)
