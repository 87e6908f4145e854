-- ===== src/Lrmd/Done/Settled.antt =====
-- `on_op_done` (lrm/lrmd/lrmd.c) from the removal from the queue on, where memory is at hand.
use cluster_glue_import.Prelude.{
  ℕ, ◌≡◌, refl, ◌∙◌, Bool, true, false, ◌&&◌, not, List, [], ◌∷◌, ◌++◌, some, arith, ◌==◌,
  if◌then◌else◌, ℤ, pos, length, All, map, is_some, append-nil, Bool-cases, Option-cases, inl, inr,
}
use cluster_glue_import.Lrmd.Messages.{Messages, f_lrm_opstatus, lrm_op_cancelled, f_lrm_rscdeleted}
use cluster_glue_import.Lrmd.Ops.{
  Op, Rsc, Notice, list_remove, notify_client, rsc_removal_pending, remove_op_history,
}
use cluster_glue_import.Lrmd.Done.{
  World, leave_queue, settle, to_notify, keep_record, deleted, record_op_completion, to_repeatlist,
  replace_last_op, lrmd_op_copy, reset_timestamps,
}
use cluster_glue_import.Lrmd.Done.Way.{written}

module _ (ms : Messages) (w : World ms) where
  abbrev pub call_ids : List (Op ms) → List ℕ
  call_ids = map (λ (o : Op ms). o.call_id)

  abbrev pub is_known : Op ms → Bool
  is_known op = is_some (w.clients op.client_id)

  abbrev pub repeats : Op ms → Bool
  repeats op = not op.is_cancelled && is_known op && not (op.interval == 0)

module _ (ms : Messages) (w : World ms) (h : (i : ℕ) → w.mem i ≡ true) where
  open ms use {value_int}

  call_ids-append :
      (xs ys : List (Op ms)) → call_ids ms w (xs ++ ys) ≡ call_ids ms w xs ++ call_ids ms w ys
  call_ids-append [] ys = refl
  call_ids-append (x ∷ xs) ys = rw (call_ids-append xs ys)

  pub settle-lists :
      (rsc : Rsc ms) (told : List (Notice ms))
      → ((settle ms w rsc told).rsc.repeat_op_list ≡ rsc.repeat_op_list)
        × ((settle ms w rsc told).rsc.op_list ≡ rsc.op_list)
        × ((settle ms w rsc told).told ≡ told)
  unfolding settle
  settle-lists rsc told = ground arith

  history-lists :
      (rsc : Rsc ms) (op : Op ms)
      → ((remove_op_history ms w.clients rsc op).repeat_op_list ≡ rsc.repeat_op_list)
        × ((remove_op_history ms w.clients rsc op).op_list ≡ rsc.op_list)
        × ((remove_op_history ms w.clients rsc op).state ≡ rsc.state)
  unfolding remove_op_history
  history-lists rsc op = (refl, refl, refl)

  repeated :
      (rsc : Rsc ms) (op : Op ms)
      → call_ids ms w (to_repeatlist ms w rsc op).repeat_op_list
        ≡ call_ids ms w rsc.repeat_op_list ++ op.call_id ∷ []
  unfolding to_repeatlist lrmd_op_copy reset_timestamps
  repeated rsc op = call_ids-append rsc.repeat_op_list _

  repeated-lists :
      (rsc : Rsc ms) (op : Op ms)
      → ((to_repeatlist ms w rsc op).op_list ≡ rsc.op_list)
        × ((to_repeatlist ms w rsc op).state ≡ rsc.state)
  unfolding to_repeatlist
  repeated-lists rsc op = (refl, refl)

  recorded-lists :
      (rsc : Rsc ms) (op : Op ms)
      → ((record_op_completion ms w rsc op).0.op_list ≡ rsc.op_list)
        × ((record_op_completion ms w rsc op).0.state ≡ rsc.state)
        × ((record_op_completion ms w rsc op).0.repeat_op_list ≡ rsc.repeat_op_list)
        × ((record_op_completion ms w rsc op).1 ≡ is_known ms w op)
  unfolding record_op_completion replace_last_op
  recorded-lists rsc op = ground arith

  record-lists :
      (rsc : Rsc ms) (op : Op ms)
      → ((keep_record ms w rsc op).op_list ≡ rsc.op_list)
        × ((keep_record ms w rsc op).state ≡ rsc.state)
        × (call_ids ms w (keep_record ms w rsc op).repeat_op_list
            ≡ call_ids ms w rsc.repeat_op_list
              ++ (if is_known ms w op && not (op.interval == 0) then op.call_id ∷ [] else []))
  record-lists rsc op =
      let rsc' = (record_op_completion ms w rsc op).0 in
      ground (
        arith,
        recorded-lists rsc op,
        repeated rsc' op,
        repeated-lists rsc' op,
        append-nil (call_ids ms w rsc.repeat_op_list),
      )

  -- The operation has left, and the end is settled.
  pub record Settled (rsc : Rsc ms) (op : Op ms) (status rc target : ℤ) (new : Bool) : Type 0 where
    pub kept : Rsc ms
    pub sent : Op ms
    pub ends :
        leave_queue ms w rsc op status rc target new
        ≡ settle ms w kept (
            if to_notify ms w kept
              (if op.is_cancelled then lrm_op_cancelled else status)
              rc
              target
              new
            then notify_client ms w.clients sent
            else [])
    pub op_list : kept.op_list ≡ list_remove ms rsc.op_list op.ptr
    pub state : kept.state ≡ rsc.state
    pub repeat_op_list :
        call_ids ms w kept.repeat_op_list
        ≡ call_ids ms w rsc.repeat_op_list ++ (if repeats ms w op then op.call_id ∷ [] else [])
    pub client : sent.client_id ≡ op.client_id
    pub opstatus :
        value_int op.msg f_lrm_opstatus ≡ some status
        → value_int sent.msg f_lrm_opstatus
          ≡ some (if op.is_cancelled then lrm_op_cancelled else status)

  deleted-opstatus :
      (op : Op ms) (x : ℤ)
      → value_int op.msg f_lrm_opstatus ≡ some x
      → value_int (deleted ms w op).msg f_lrm_opstatus ≡ some x
  deleted-opstatus op x e =
      elim (Option-cases (ms.add_int (w.mem 6) op.msg f_lrm_rscdeleted (pos 1))) [
        | inl n ↦ rw (n, deleted) e
        | inr (m, a) ↦
            rw (a, deleted)
              (ms.value_int-add_int f_lrm_rscdeleted f_lrm_opstatus a refl refl ∙ rw e)
      ]

  pub settled :
      (rsc : Rsc ms) (op : Op ms) (status rc target : ℤ) (new : Bool)
      → Settled rsc op status rc target new
  unfolding leave_queue
  settled rsc op status rc target new =
      let left = record rsc { op_list = list_remove ms rsc.op_list op.ptr } in
      let (m, e, wr) = written ms w h 5 op f_lrm_opstatus lrm_op_cancelled refl in
      elim (Bool-cases op.is_cancelled) [
        | inl c ↦
            let op1 = record op { msg = m } in
            let kept = remove_op_history ms w.clients left op1 in
            record {
              kept = kept;
              sent = if rsc_removal_pending ms kept then deleted ms w op1 else op1;
              ends = rw (wr, c);
              op_list = (history-lists left op1).1;
              state = (history-lists left op1).2;
              repeat_op_list =
                  ground (
                    arith,
                    c,
                    history-lists left op1,
                    append-nil (call_ids ms w rsc.repeat_op_list),
                  );
              client = ground (arith);
              opstatus = λ _. ground (
                arith,
                c,
                deleted-opstatus op1 lrm_op_cancelled
                    (ms.value_int-mod_int f_lrm_opstatus f_lrm_opstatus e refl refl),
                ms.value_int-mod_int f_lrm_opstatus f_lrm_opstatus e refl refl,
              );
            }
        | inr c ↦
            let kept = keep_record ms w left op in
            record {
              kept = kept;
              sent = if rsc_removal_pending ms kept then deleted ms w op else op;
              ends = rw c;
              op_list = (record-lists left op).0;
              state = (record-lists left op).1;
              repeat_op_list = ground (arith, c, record-lists left op);
              client = ground arith;
              opstatus = λ d. ground (arith, c, d, deleted-opstatus op status d);
            }
      ]

  pub told-length :
      (b : Bool) (op : Op ms)
      → length (if b then notify_client ms w.clients op else [])
        ≡ (if is_known ms w op && b then 1 else 0)
  unfolding notify_client
  told-length b op = ground arith

  pub told-All :
      (b : Bool) (op : Op ms) (P : Notice ms → Type 0)
      → P (record { pid = op.client_id; body = op.msg })
      → All P (if b then notify_client ms w.clients op else [])
  unfolding notify_client
  told-All false op P p = tt
  told-All true op P p = elim (Option-cases (w.clients op.client_id)) [
    | inl e ↦ rw (e, All) tt
    | inr (a, e) ↦ rw (e, All) (p, tt)
  ]
