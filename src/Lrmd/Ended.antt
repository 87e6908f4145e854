-- ===== src/Lrmd/Ended.antt =====
-- `on_ra_proc_finished` of lrm/lrmd/lrmd.c: the process of an operation has ended. Its first line of
-- output is complete, and the resource is known. `RAExecFuncs` and its functions are plugins, which
-- map the exit code.
pub mod Told
use cluster_glue_import.Prelude.{
  ℕ, ◌-◌, Bool, true, false, ◌||◌, not, List, [], ◌∷◌, ◌++◌, Option, none, some, String, ◌==◌, ltb,
  if◌then◌else◌, ℤ, pos, negsuc, int_eq, is_some, length,
}
use cluster_glue_import.Lrmd.Messages.{
  Messages, f_lrm_opstatus, f_lrm_rc, f_lrm_data, lrm_op_done, lrm_op_timeout, lrm_op_error,
}
use cluster_glue_import.Lrmd.Ops.{Op, Rsc, Notice, no_process}
use cluster_glue_import.Lrmd.Done.{World, Finished, write, put_op, on_op_done}
use cluster_glue_import.Lrmd.Perform.{Round, Performed, perform_op}

-- EXECRA_EXEC_UNKNOWN_ERROR and EXECRA_NO_RA.
abbrev pub execra_exec_unknown_error : ℤ
execra_exec_unknown_error = negsuc 1

abbrev pub execra_no_ra : ℤ
execra_no_ra = negsuc 0

-- How the process ended: `signo` is 0 where it was not killed; `timed_out` is `proctrack_timedout`.
pub record Exit : Type 0 where
  pub signo : ℕ
  pub timed_out : Bool
  pub exitcode : ℤ
  pub first_line : List ℕ

-- The variables `rc` and `op_status`, with `map_ra_retvalue` for the operation.
abbrev pub exit_rc : (ℤ → ℤ) → Exit → ℤ
exit_rc map_ra_retvalue e =
    if not (e.signo == 0) then execra_exec_unknown_error else map_ra_retvalue e.exitcode

abbrev pub exit_status : (ℤ → ℤ) → Exit → ℤ
exit_status map_ra_retvalue e =
    let rc = map_ra_retvalue e.exitcode in
    if not (e.signo == 0)
    then if e.timed_out then lrm_op_timeout else lrm_op_error
    else if int_eq rc execra_exec_unknown_error || int_eq rc execra_no_ra
    then lrm_op_error
    else lrm_op_done

-- `add_text` is `ha_msg_add`, for memory at hand or not.
module _ (ms : Messages) (add_text : Bool → ms.Msg → String → List ℕ → Option ms.Msg) where
  open ms use {value, remove}

  -- The first line of the output replaces F_LRM_DATA, unless it is empty.
  unfoldable pub with_data : World ms → Op ms → List ℕ → Op ms
  with_data w op line =
      let m = if is_some (value op.msg f_lrm_data) then remove op.msg f_lrm_data else op.msg in
      if length line == 0 then op else elim (add_text (w.mem 10) m f_lrm_data line) [
        | none ↦ record op { msg = m }
        | some m' ↦ record op { msg = m' }
      ]

  -- The resource, whether it is gone, the number of processes, and what the clients were told.
  pub record ProcEnded : Type 0 where
    pub rsc : Rsc ms
    pub gone : Bool
    pub child_count : ℕ
    pub told : List (Notice ms)

  -- An early return, after which the operation stays where it is.
  abbrev pub returns : World ms → Rsc ms → Op ms → ℕ → Option ProcEnded
  returns w rsc op n = some (record {
    rsc = record rsc { op_list = put_op ms w rsc.op_list op };
    gone = false;
    child_count = n;
    told = [];
  })

  abbrev pub performed : List (Notice ms) → Option (Performed ms) → Option ProcEnded
  performed told none = none
  performed told (some p) =
      some
        (record { rsc = p.rsc; gone = false; child_count = p.child_count; told = told ++ p.told })

  -- The next operation is started, unless the resource is gone.
  abbrev pub start_next : (w : World ms) → (ℕ → Round ms) → ℕ → ℕ → Finished ms w → Option ProcEnded
  start_next w rounds max_child_count n f =
      if f.gone
      then some (record { rsc = f.rsc; gone = true; child_count = n; told = f.told })
      else performed f.told (perform_op ms rounds max_child_count f.rsc n)

  unfoldable pub on_ra_proc_finished :
      (String → Option (ℤ → ℤ))
      → World ms
      → (ℕ → Round ms)
      → ℕ
      → Rsc ms
      → ℕ
      → Op ms
      → Exit
      → Option ProcEnded
  on_ra_proc_finished ra_exec_funcs w rounds max_child_count rsc child_count op e =
      let n = child_count - op.weight in
      let op1 = record op { exec_pid = no_process } in
      if int_eq op.exec_pid (pos 0)
      then returns w rsc op n
      else elim (ra_exec_funcs rsc.rsc_class) [
        | none ↦ returns w rsc op1 n
        | some map_ra_retvalue ↦
            let status = exit_status map_ra_retvalue e in
            let (op2, saved) = write ms w (w.mem 8) op1 f_lrm_opstatus status in
            let (op3, saved') = write ms w (w.mem 9) op2 f_lrm_rc (exit_rc map_ra_retvalue e) in
            let op4 = with_data w op3 e.first_line in
            if not saved
            then returns w rsc op1 n
            else if not saved'
            then returns w rsc op2 n
            else start_next w rounds max_child_count n (on_op_done ms w rsc op4)
      ]
