-- ===== src/Lrmd/Done/Outcome.antt =====
-- What `on_op_done` (lrm/lrmd/lrmd.c) makes of an operation that has run, where memory is at hand.
use cluster_glue_import.Prelude.{
  ℕ, ◌≡◌, sym, ap, ◌∙◌, subst, Bool, true, ◌&&◌, ◌||◌, not, List, [], ◌∷◌, ◌++◌, some, arith,
  if◌then◌else◌, ℤ, pos, negsuc, int_eq, length, All,
}
use cluster_glue_import.Lrmd.Messages.{
  Messages, f_lrm_opstatus, f_lrm_targetrc, lrm_op_cancelled, lrm_op_done, everytime, changed,
}
use cluster_glue_import.Lrmd.Ops.{Op, Rsc, Notice, list_remove, notify_client, rsc_removal_pending}
use cluster_glue_import.Lrmd.Ops.Flush.{IsLive}
use cluster_glue_import.Lrmd.Done.{World, Finished, on_op_done, settle, to_notify}
use cluster_glue_import.Lrmd.Done.Settled.{
  call_ids, is_known, repeats, settle-lists, told-length, told-All, Settled, settled,
}
use cluster_glue_import.Lrmd.Done.Way.{rc_of, is_new, last_rc_of, Leaves, leaves}

joined : (a b c : ℤ) → int_eq a b ≡ true → int_eq a c ≡ true → int_eq c b ≡ true
joined (pos a) (pos b) (pos c) h k = ground arith
joined (pos a) (pos b) (negsuc c) h k = absurd cc
joined (pos a) (negsuc b) c h k = absurd cc
joined (negsuc a) (pos b) c h k = absurd cc
joined (negsuc a) (negsuc b) (pos c) h k = absurd cc
joined (negsuc a) (negsuc b) (negsuc c) h k = ground arith

-- What a client wants to be told of an operation that was not cancelled: a failure, a result that is
-- missing, the target, everything or any change, as the target says, and the end of the resource.
abbrev pub is_wanted : (status target rc last_rc : ℤ) → (removal : Bool) → Bool
is_wanted status target rc last_rc removal =
    removal
    || not (int_eq status lrm_op_done)
    || int_eq rc (negsuc 0)
    || int_eq rc target
    || int_eq target everytime
    || (int_eq target changed && not (int_eq last_rc rc))

module _ (ms : Messages) (w : World ms) (h : (i : ℕ) → w.mem i ≡ true) where
  open ms use {value_int}

  module _ (rsc : Rsc ms) (op : Op ms) (target status : ℤ) (l : IsLive ms op)
      (t : value_int op.msg f_lrm_targetrc ≡ some target)
      (s : value_int op.msg f_lrm_opstatus ≡ some status) where
    abbrev after : Finished ms w
    after = on_op_done ms w rsc op

    way : Leaves ms w h rsc op target status
    way = leaves ms w h rsc op target status l t s

    last : Settled ms w h rsc way.last status (rc_of ms op) target (is_new ms status op)
    last = settled ms w h rsc way.last status (rc_of ms op) target (is_new ms status op)

    abbrev told : List (Notice ms)
    told =
        if to_notify ms w last.kept (if way.last.is_cancelled then lrm_op_cancelled else status)
          (rc_of ms op) target (is_new ms status op)
        then notify_client ms w.clients last.sent
        else []

    ends : after ≡ settle ms w last.kept told
    ends = way.returns ∙ last.ends

    -- The operation is taken off the queue.
    pub done_leaves : after.rsc.op_list ≡ list_remove ms rsc.op_list op.ptr
    done_leaves =
        ap (λ f. f.rsc.op_list) ends
        ∙ (settle-lists ms w h last.kept told).1
        ∙ last.op_list
        ∙ ap (list_remove ms rsc.op_list) way.ptr

    -- With memory at hand, a message that has a target and a status, and an operation that was not
    -- destroyed, the operation joins the repeating ones exactly if it has an interval, it was not
    -- cancelled, and its client is registered.
    pub done_repeats :
        call_ids ms w after.rsc.repeat_op_list
        ≡ call_ids ms w rsc.repeat_op_list ++ (if repeats ms w op then op.call_id ∷ [] else [])
    done_repeats =
        ap (λ f. call_ids ms w f.rsc.repeat_op_list) ends
        ∙ ap (call_ids ms w) (settle-lists ms w h last.kept told).0
        ∙ last.repeat_op_list
        ∙ rw (way.interval, way.is_cancelled, way.client_id, way.call_id)

    pub done_told : length after.told ≡ (
        if is_known ms w op
          && (op.is_cancelled
              || is_wanted status target
                  (rc_of ms op)
                  (last_rc_of ms op)
                  (rsc_removal_pending ms rsc))
        then 1
        else 0)
    done_told =
        ap (λ f. length f.told) ends
        ∙ ap length (settle-lists ms w h last.kept told).2
        ∙ told-length ms w h _ last.sent
        ∙ ground (
          arith,
          last.client,
          way.client_id,
          way.is_cancelled,
          last.state,
          joined (last_rc_of ms op) (negsuc 0) (rc_of ms op),
        )

    -- With memory at hand, a message that has a target and a status, and an operation that was not
    -- destroyed, whoever is told is the client of the operation, and is told that it was cancelled if
    -- it was, whatever status the message had, and the status of the message otherwise.
    pub done_status :
        All
          (λ (n : Notice ms).
            (n.pid ≡ op.client_id)
            × (value_int n.body f_lrm_opstatus
                ≡ some (if op.is_cancelled then lrm_op_cancelled else status)))
          after.told
    done_status =
        subst (All _) (sym (ap (λ f. f.told) ends ∙ (settle-lists ms w h last.kept told).2)) (
          told-All ms w h _ last.sent _ (
            last.client ∙ way.client_id,
            last.opstatus way.opstatus
                ∙ ap (λ (b : Bool). some (if b then lrm_op_cancelled else status)) way.is_cancelled,
          ))
