-- ===== src/Lrmd/Handlers.antt =====
-- The requests to lrm/lrmd/lrmd.c that cancel, flush and delete, once `lookup_rsc_by_msg` has
-- answered, and `on_repeat_op_readytorun`.
pub mod Delete
use cluster_glue_import.Prelude.{
  ℕ, zero, suc, Bool, true, false, ◌&&◌, List, [], ◌∷◌, ◌++◌, Option, none, some, ℤ, ◌>>=◌,
  if◌then◌else◌, ltb,
}
use cluster_glue_import.Lrmd.Messages.{Messages}
use cluster_glue_import.Lrmd.Ops.{
  Op, Rsc, Rc, ha_ok, ha_fail, ha_rscbusy, rsc_gone, is_ok, Notice, Clients, no_process, cancel_op,
  flush_all, no_more, flushing_ops, removal_pending, list_remove,
}
use cluster_glue_import.Lrmd.Perform.{Round, Performed, perform_op}

module _ (ms : Messages) where
  -- The resource afterwards, whether it is gone, what clients were told, and the return value.
  pub record Handled : Type 0 where
    pub rsc : Rsc ms
    pub gone : Bool
    pub told : List (Notice ms)
    pub rc : Rc

  -- `on_msg_cancel_op` of an operation's id: the repeating operations first.
  unfoldable pub on_msg_cancel_op : (ℕ → ℕ → Bool) → Clients ms → Rsc ms → ℕ → Handled
  on_msg_cancel_op mem clients rsc cancel_op_id =
      let (left1, rsc1, told1, rc1) =
        cancel_op ms (mem 0) clients rsc rsc.repeat_op_list cancel_op_id in
      let rsc2 = record rsc1 { repeat_op_list = left1 } in
      let (left2, rsc3, told2, rc2) = cancel_op ms (mem 1) clients rsc2 rsc2.op_list cancel_op_id in
      if is_ok rc1 then record { rsc = rsc2; gone = false; told = told1; rc = ha_ok } else record {
        rsc = record rsc3 { op_list = left2 };
        gone = false;
        told = told1 ++ told2;
        rc = rc2;
      }

  -- Both lists of a resource flushed for all clients, and whether `op_list` is busy.
  unfoldable pub flush_both : (ℕ → ℕ → ℕ → Bool) → Clients ms → Rsc ms → Option (Rsc ms × Bool)
  flush_both mem clients rsc = do
    (repeating, rsc1, busy1) ← flush_all ms (mem 0) clients 0 rsc rsc.repeat_op_list
    let rsc2 = record rsc1 { repeat_op_list = repeating }
    (queued, rsc3, busy) ← flush_all ms (mem 1) clients 0 rsc2 rsc2.op_list
    some (record rsc3 { op_list = queued }, busy)

  unfoldable pub on_msg_flush_all : (ℕ → ℕ → ℕ → Bool) → Clients ms → Rsc ms → Option Handled
  on_msg_flush_all mem clients rsc = do
    (rsc', busy) ← flush_both mem clients rsc
    some (
        if busy
        then record {
          rsc = record rsc' { state = flushing_ops ms };
          gone = false;
          told = [];
          rc = ha_rscbusy;
        }
        else record { rsc = rsc'; gone = false; told = []; rc = ha_ok })

  -- `on_msg_del_rsc`, where `lrmd_rsc_destroy` refuses a resource that holds operations.
  unfoldable pub on_msg_del_rsc : (ℕ → ℕ → ℕ → Bool) → Clients ms → Rsc ms → Option Handled
  on_msg_del_rsc mem clients rsc = do
    (rsc', busy) ← flush_both mem clients rsc
    some (
        if busy
        then record {
          rsc = record rsc' { state = removal_pending ms };
          gone = false;
          told = [];
          rc = ha_rscbusy;
        }
        else record {
          rsc = rsc';
          gone = no_more ms rsc'.op_list && no_more ms rsc'.repeat_op_list;
          told = [];
          rc = ha_ok;
        })

  -- `add_op_to_runlist`
  unfoldable pub add_op_to_runlist : ℕ → Rsc ms → Op ms → Rsc ms
  add_op_to_runlist now rsc op = record rsc {
    op_list = rsc.op_list ++ record op { t_addtolist = now } ∷ [];
  }

  -- `on_repeat_op_readytorun` of an operation that is not destroyed.
  unfoldable pub on_repeat_op_readytorun :
      (ℕ → Round ms) → ℕ → Bool → ℕ → Rsc ms → Op ms → ℕ → Option (Performed ms)
  on_repeat_op_readytorun rounds now shutdown_in_progress max_child_count rsc op child_count =
      let rsc1 = record rsc { repeat_op_list = list_remove ms rsc.repeat_op_list op.ptr } in
      let op1 = record op { repeat_timeout_tag = 0; exec_pid = no_process } in
      perform_op ms rounds max_child_count
        (if shutdown_in_progress then rsc1 else add_op_to_runlist now rsc1 op1) child_count

  -- `rsc_execution_freeze_timeout`
  unfoldable pub rsc_execution_freeze_timeout :
      (ℕ → Round ms) → ℕ → Rsc ms → ℕ → Option (Performed ms)
  rsc_execution_freeze_timeout rounds max_child_count rsc child_count =
      perform_op ms rounds max_child_count
        (if ltb 0 rsc.delay_timeout then record rsc { delay_timeout = 0 } else rsc) child_count
