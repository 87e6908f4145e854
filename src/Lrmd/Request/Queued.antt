-- ===== src/Lrmd/Request/Queued.antt =====
-- A request of `on_msg_perform_op` (lrm/lrmd/lrmd.c) that is accepted, up to the operation that
-- `perform_op` starts.
use cluster_glue_import.Prelude.{
  ℕ, suc, ◌≤◌, ◌≡◌, refl, ◌∙◌, sym, subst, inl, inr, Bool-cases, Bool, true, false, List, [], ◌∷◌,
  ◌++◌, Option, some, String, ltb, if◌then◌else◌, ℤ, pos, All, All-append, arith,
}
use cluster_glue_import.Lrmd.Messages.{
  name_eq, is_written, Messages, f_lrm_interval, f_lrm_timeout, f_lrm_rid, f_lrm_delay,
  f_lrm_callid, f_lrm_app, f_lrm_targetrc,
}
use cluster_glue_import.Lrmd.Ops.{Op, Rsc, rsc_frozen}
use cluster_glue_import.Lrmd.Done.{World}
use cluster_glue_import.Lrmd.Perform.{Round, Performed}
use cluster_glue_import.Lrmd.Perform.Queue.{IsCalm, IsQueued, Tail, perform_op-Tail}
use cluster_glue_import.Lrmd.Handlers.{add_op_to_runlist}
use cluster_glue_import.Lrmd.Request.{new_op, enlist_op, answered, on_msg_perform_op}

module _ (ms : Messages) (mod_text : Bool → ms.Msg → String → String → Option ms.Msg)
    (mod_text-some : (m : ms.Msg) (n s : String)
      → is_written n ≡ true
      → (m' : ms.Msg) × (mod_text true m n s ≡ some m'))
    (value_int-mod_text : (a : Bool) (m m' : ms.Msg) (n k s : String)
      → mod_text a m n s ≡ some m'
      → is_written n ≡ true
      → name_eq n k ≡ false
      → ms.value_int m' k ≡ ms.value_int m k)
    (no_child_count : Rsc ms → Bool) (w : World ms) (h : (i : ℕ) → w.mem i ≡ true) where
  open ms use {value_int, value, add_int}

  -- The queue that `perform_op` gets, with the new operation at its end unless it is delayed.
  abbrev pub queue_with : Rsc ms → Op ms → List (Op ms)
  queue_with rsc op =
      if ltb 0 op.delay then rsc.op_list else rsc.op_list ++ record op { t_addtolist = w.now } ∷ []

  enlisted :
      (rsc : Rsc ms) (op : Op ms)
      → (enlist_op ms mod_text no_child_count w rsc op).op_list ≡ queue_with rsc op
  unfolding enlist_op add_op_to_runlist
  enlisted rsc op = elim (Bool-cases (ltb 0 op.delay)) [ inl e ↦ rw e | inr e ↦ rw e ]

  queue-IsQueued :
      (rsc : Rsc ms) (op : Op ms)
      → All (IsQueued ms) rsc.op_list
      → IsQueued ms op
      → All (IsQueued ms) (queue_with rsc op)
  queue-IsQueued rsc op q o = elim (Bool-cases (ltb 0 op.delay)) [
    | inl e ↦ rw e q
    | inr e ↦ rw e (
        All-append (IsQueued ms) rsc.op_list (record op { t_addtolist = w.now } ∷ []) q
          (record { weight = o.weight; target = o.target; has_target = o.has_target }, tt))
  ]

  new_op-IsQueued :
      (client_pid : ℕ) (rsc : Rsc ms) (call_id : ℕ) (msg : ms.Msg) (interval delay target : ℤ)
      → value_int msg f_lrm_targetrc ≡ some target
      → IsQueued ms (new_op ms mod_text no_child_count w client_pid rsc call_id msg interval delay)
  unfolding new_op
  new_op-IsQueued client_pid rsc call_id msg interval delay target e = record {
    weight = ground arith;
    target = target;
    has_target = e;
  }

  module _ (rounds : ℕ → Round ms) (max client_pid : ℕ) (app_name : String) (msg : ms.Msg)
      (rsc : Rsc ms) (call_id child_count : ℕ) (interval timeout delay target : ℤ) (rid : List ℕ)
      (has_rid : value msg f_lrm_rid ≡ some rid)
      (has_interval : value_int msg f_lrm_interval ≡ some interval)
      (has_timeout : value_int msg f_lrm_timeout ≡ some timeout)
      (has_delay : value_int msg f_lrm_delay ≡ some delay)
      (has_target : value_int msg f_lrm_targetrc ≡ some target)
      (free : rsc_frozen ms rsc ≡ false) where
    -- What the accepted request comes to.
    pub record Accepted : Type 0 where
      pub request : ms.Msg
      pub target_kept : value_int request f_lrm_targetrc ≡ some target
      pub done : Performed ms
      pub returns :
          on_msg_perform_op ms mod_text no_child_count w rounds max client_pid app_name msg
            (some rsc)
            call_id
            child_count
          ≡ answered ms mod_text no_child_count (suc call_id) (some done)
      pub tail :
          Tail ms max
            (queue_with rsc (
              new_op ms mod_text no_child_count w client_pid rsc
                (suc call_id)
                request
                interval
                delay))
            done

    -- Let memory be at hand, no child have the process id 0, every queued operation have a target and
    -- a weight of at most 1, and no more than `max` processes run; let the request have an id, an
    -- interval, a timeout, a delay and a target, and the resource be there and not frozen; and let
    -- `ha_msg_mod` succeed with memory at hand for the names that the daemon writes and leave the
    -- numbers of other fields alone. Then
    -- `on_msg_perform_op` returns the next call id, after `perform_op` has come to an end on the
    -- queue with the new operation at its end, or on the old queue if the delay is positive.
    pub on_msg_perform_op_lem :
        ((i : ℕ) → IsCalm ms (rounds i))
        → All (IsQueued ms) rsc.op_list
        → child_count ≤ max
        → Accepted
    unfolding on_msg_perform_op
    on_msg_perform_op_lem calm queued few =
        let (m1, e1) = ms.add_int-some msg f_lrm_callid (pos (suc call_id)) refl in
        let (m2, e2) = mod_text-some m1 f_lrm_app app_name refl in
        let kept : value_int m2 f_lrm_targetrc ≡ some target =
          value_int-mod_text true m1 m2 f_lrm_app f_lrm_targetrc app_name e2 refl refl
          ∙ ms.value_int-add_int f_lrm_callid f_lrm_targetrc e1 refl refl
          ∙ rw has_target in
        let op =
          new_op ms mod_text no_child_count w client_pid rsc (suc call_id) m2 interval delay in
        let (p, run, tail) =
          perform_op-Tail ms rounds max (enlist_op ms mod_text no_child_count w rsc op) child_count
            calm
            (subst (All (IsQueued ms)) (sym (enlisted rsc op)) (
              queue-IsQueued rsc op queued
                (new_op-IsQueued client_pid rsc (suc call_id) m2 interval delay target kept)))
            few in
        record {
          request = m2;
          target_kept = kept;
          done = p;
          returns =
              rw (
                has_rid,
                has_interval,
                has_timeout,
                has_delay,
                free,
                h 11,
                e1,
                h 12,
                e2,
                h 13,
                run,
              );
          tail = subst (λ l. Tail ms max l p) (enlisted rsc op) tail;
        }
