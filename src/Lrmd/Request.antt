-- ===== src/Lrmd/Request.antt =====
-- `on_msg_perform_op` of lrm/lrmd/lrmd.c: a client asks for an operation. What `lookup_rsc_by_msg`
-- finds is an argument. The table of the resource's parameters, which only the child reads, is left
-- out.
pub mod Queued
use cluster_glue_import.Prelude.{
  ℕ, suc, ◌-◌, ◌^◌, Bool, true, false, not, List, [], ◌∷◌, ◌++◌, Option, none, some, String, ltb,
  if◌then◌else◌, ℤ, pos, negsuc, pos_part,
}
use cluster_glue_import.Lrmd.Messages.{
  Messages, f_lrm_interval, f_lrm_timeout, f_lrm_rid, f_lrm_delay, f_lrm_callid, f_lrm_app,
}
use cluster_glue_import.Lrmd.Ops.{Op, Rsc, Notice, no_process, rsc_frozen}
use cluster_glue_import.Lrmd.Done.{World}
use cluster_glue_import.Lrmd.Perform.{Round, Performed, perform_op}
use cluster_glue_import.Lrmd.Handlers.{add_op_to_runlist}

-- A value that is needed: what follows without it, and with it.
abbrev pub need {ℓ κ} : {A : Type ℓ} {B : Type κ} → Option A → B → (A → B) → B
need none b f = b
need (some a) b f = f a

-- An interval is nonzero and unsigned for the timer.
abbrev pub as_interval : ℤ → ℕ
as_interval (pos n) = n
as_interval (negsuc n) = 2 ^ 32 - suc n

-- `mod_text` is `ha_msg_mod`, and `no_child_count` the test of lrmd.c on a resource.
module _ (ms : Messages) (mod_text : Bool → ms.Msg → String → String → Option ms.Msg)
    (no_child_count : Rsc ms → Bool) where
  open ms use {Msg, value, value_int, add_int}

  -- The resource, the number of processes, what clients were told, the last call id, and the value
  -- that is returned: HA_FAIL, which is 0, -1, or the call id.
  pub record Requested : Type 0 where
    pub rsc : Option (Rsc ms)
    pub child_count : ℕ
    pub told : List (Notice ms)
    pub call_id : ℕ
    pub rc : ℤ

  -- `lrmd_op_new`, with the fields that the request sets.
  unfoldable pub new_op : World ms → ℕ → Rsc ms → ℕ → Msg → ℤ → ℤ → Op ms
  new_op w client_pid rsc call_id msg interval delay = record {
    ptr = w.new_ptr 3;
    is_copy = false;
    client_id = client_pid;
    call_id = call_id;
    exec_pid = no_process;
    repeat_timeout_tag = 0;
    interval = as_interval interval;
    delay = pos_part delay;
    is_cancelled = false;
    weight = if no_child_count rsc then 0 else 1;
    msg = msg;
    t_addtolist = 0;
    t_perform = 0;
    t_done = 0;
    t_rcchange = 0;
  }

  -- A delayed operation waits for its timer with those that are repeated.
  unfoldable pub enlist_op : World ms → Rsc ms → Op ms → Rsc ms
  enlist_op w rsc op =
      if ltb 0 op.delay
      then record rsc {
        repeat_op_list = rsc.repeat_op_list ++ record op { repeat_timeout_tag = w.timer } ∷ [];
      }
      else add_op_to_runlist ms w.now rsc op

  -- A request that is refused changes the call id at most.
  abbrev pub refused : Option (Rsc ms) → ℕ → ℕ → ℤ → Option Requested
  refused found child_count call_id rc =
      some
        (record { rsc = found; child_count = child_count; told = []; call_id = call_id; rc = rc })

  abbrev pub answered : ℕ → Option (Performed ms) → Option Requested
  answered call_id none = none
  answered call_id (some p) = some (record {
    rsc = some p.rsc;
    child_count = p.child_count;
    told = p.told;
    call_id = call_id;
    rc = pos call_id;
  })

  unfoldable pub on_msg_perform_op :
      World ms → (ℕ → Round ms) → ℕ → ℕ → String → Msg → Option (Rsc ms) → ℕ → ℕ → Option Requested
  on_msg_perform_op w rounds max_child_count client_pid app_name msg found call_id child_count =
      let ha_fail = refused found child_count call_id (pos 0) in
      let minus_one = refused found child_count in
      let id = suc call_id in
      need (value msg f_lrm_rid) ha_fail (λ _.
        need (value_int msg f_lrm_interval) ha_fail (λ interval.
          need (value_int msg f_lrm_timeout) ha_fail (λ _.
            need (value_int msg f_lrm_delay) ha_fail (λ delay.
              need found (minus_one call_id (negsuc 0)) (λ rsc.
                if rsc_frozen ms rsc
                then minus_one call_id (negsuc 0)
                else need (add_int (w.mem 11) msg f_lrm_callid (pos id)) (minus_one id (negsuc 0))
                    (λ msg1.
                      need (mod_text (w.mem 12) msg1 f_lrm_app app_name) (minus_one id (negsuc 0))
                        (λ msg2.
                          if not (w.mem 13)
                          then minus_one id (negsuc 0)
                          else answered id (
                              perform_op ms rounds max_child_count
                                (enlist_op w rsc (new_op w client_pid rsc id msg2 interval delay))
                                child_count))))))))
