-- ===== src/Lrmd/Perform.antt =====
-- `perform_ra_op` and `perform_op` of lrm/lrmd/lrmd.c: the head of a resource's queue is started. In
-- the parent, the answers of `fork` and of `ra_pipe_op_new` are arguments; what the child executes
-- is outside.
pub mod Queue
pub mod Stuck
pub mod Failed
use cluster_glue_import.Prelude.{
  ℕ, zero, suc, ◌+◌, Bool, true, false, ◌&&◌, ◌||◌, not, List, [], ◌∷◌, ◌++◌, Option, none, some,
  String, str_eq, ltb, leb, ◌==◌, if◌then◌else◌, ℤ, pos, negsuc, int_eq, length,
}
use cluster_glue_import.Lrmd.Messages.{Messages, f_lrm_timeout, f_lrm_opstatus, lrm_op_error}
use cluster_glue_import.Lrmd.Ops.{
  Op, Rsc, Rc, ha_ok, ha_fail, ha_rscbusy, rsc_gone, Notice, no_process, rsc_frozen,
}
use cluster_glue_import.Lrmd.Done.{World, Finished, put_op, on_op_done, or_else}

-- `fork` fails, or a child runs, for which the pipes' object may be missing.
pub data Fork : Type 0 where
  no_child : Fork
  child : ℤ → Bool → Fork

-- A signal after so many milliseconds.
pub record Kill : Type 0 where
  pub mstimeout : ℕ
  pub signalno : ℕ

abbrev sigterm : ℕ
sigterm = 15

abbrev sigkill : ℕ
sigkill = 9

-- The field `killseq`, where the timeout is positive.
abbrev pub kill_sequence : String → ℤ → List Kill
kill_sequence rsc_class (negsuc n) = []
kill_sequence rsc_class (pos zero) = []
kill_sequence rsc_class (pos (suc n)) =
    record {
      mstimeout = suc n + (if str_eq rsc_class "stonith" then 15000 else 0);
      signalno = sigterm;
    }
    ∷ record { mstimeout = 5000; signalno = sigkill }
    ∷ record { mstimeout = 5000; signalno = 0 }
    ∷ []

module _ (ms : Messages) where
  open ms use {value_int, add_int}

  pub record Spawned : Type 0 where
    pub op : Op ms
    pub child_count : ℕ
    pub killseq : List Kill
    pub rc : Rc

  unfoldable pub perform_ra_op : ℕ → Fork → Rsc ms → ℕ → Op ms → Spawned
  perform_ra_op now fork rsc child_count op =
      let op1 = record op { t_perform = now } in
      let timeout = or_else (value_int op.msg f_lrm_timeout) (pos 0) in
      if int_eq op.exec_pid (pos 0)
      then record { op = op; child_count = child_count; killseq = []; rc = ha_fail }
      else elim fork [
        | no_child ↦ record { op = op1; child_count = child_count; killseq = []; rc = ha_fail }
        | child pid pipes ↦ record {
          op = record op1 { exec_pid = pid };
          child_count = child_count + op.weight;
          killseq = kill_sequence rsc.rsc_class timeout;
          rc = if pipes then ha_ok else ha_fail;
        }
      ]

  -- What one round of the loop meets.
  pub record Round : Type 0 where
    pub world : World ms
    pub fork : Fork

  pub record Performed : Type 0 where
    pub rsc : Rsc ms
    pub child_count : ℕ
    pub told : List (Notice ms)

  abbrev pub is_fail : Rc → Bool
  is_fail ha_fail = true
  is_fail ha_ok = false
  is_fail ha_rscbusy = false
  is_fail rsc_gone = false

  -- An operation that could not be started gets a status, if there is memory for it.
  unfoldable pub mark_failed : World ms → Op ms → Op ms
  mark_failed w op = elim (add_int (w.mem 7) op.msg f_lrm_opstatus lrm_op_error) [
    | none ↦ op
    | some m ↦ record op { msg = m }
  ]

  -- `rsc_execution_freeze_timeout` is to come, unless it is already.
  unfoldable pub postpone : ℕ → Rsc ms → Rsc ms
  postpone timer rsc = if ltb 0 rsc.delay_timeout then rsc else record rsc { delay_timeout = timer }

  abbrev pub stop : Rsc ms → ℕ → List (Notice ms) → Option Performed
  stop rsc child_count told = some (record { rsc = rsc; child_count = child_count; told = told })

  -- The loop of `perform_op`, where at most `max_child_count` processes may run; `none` is a loop
  -- that has not come to an end.
  unfoldable pub perform_loop :
      ℕ → (ℕ → Round) → ℕ → Rsc ms → ℕ → List (Notice ms) → Option Performed
  perform_loop zero rounds max_child_count rsc child_count told = none
  perform_loop (suc fuel) rounds max_child_count rsc child_count told =
      let timer = (rounds fuel).world.timer in
      let done = stop rsc child_count told in
      let later = stop (postpone timer rsc) child_count told in
      elim rsc.op_list [
        | [] ↦ done
        | op ∷ ops ↦
            let s = perform_ra_op (rounds fuel).world.now (rounds fuel).fork rsc child_count op in
            let op1 = mark_failed (rounds fuel).world s.op in
            let f = on_op_done ms (rounds fuel).world (record rsc { op_list = op1 ∷ ops }) op1 in
            let again =
              perform_loop fuel rounds max_child_count f.rsc s.child_count (told ++ f.told) in
            if not (int_eq op.exec_pid no_process)
            then (elim ops [ [] ↦ done | o ∷ os ↦ later ])
            else if not (op.weight == 0) && leb max_child_count child_count
            then later
            else if is_fail s.rc
            then again
            else stop (record rsc { op_list = s.op ∷ ops }) s.child_count told
      ]

  -- `perform_op`, apart from the end of the daemon; the queue's length is rounds enough.
  unfoldable pub perform_op : (ℕ → Round) → ℕ → Rsc ms → ℕ → Option Performed
  perform_op rounds max_child_count rsc child_count =
      if rsc_frozen ms rsc
      then stop rsc child_count []
      else perform_loop (suc (length rsc.op_list)) rounds max_child_count rsc child_count []
