-- ===== src/Lrmd/Done/Way.antt =====
-- `on_op_done` (lrm/lrmd/lrmd.c) up to the removal from the queue, where memory is at hand.
use cluster_glue_import.Prelude.{
  ℕ, ◌≡◌, refl, ◌∙◌, Bool, true, some, String, ℤ, pos, negsuc, Bool-cases, inl, inr,
}
use cluster_glue_import.Lrmd.Messages.{
  is_written, Messages, f_lrm_opstatus, f_lrm_rc, f_lrm_lastrc, f_lrm_targetrc, f_lrm_t_run,
  f_lrm_t_rcchange, f_lrm_exec_time, f_lrm_queue_time,
}
use cluster_glue_import.Lrmd.Ops.{Op, Rsc}
use cluster_glue_import.Lrmd.Ops.Flush.{IsLive}
use cluster_glue_import.Lrmd.Done.{
  World, tm2unix, exec_time, queue_time, on_op_done, leave_queue, write, store_timestamps,
  rc_changed, or_else,
}

-- The return code of an operation, and whether it is new.
module _ (ms : Messages) where
  open ms use {value_int}

  abbrev pub rc_of : Op ms → ℤ
  rc_of op = or_else (value_int op.msg f_lrm_rc) (negsuc 0)

  abbrev pub last_rc_of : Op ms → ℤ
  last_rc_of op = or_else (value_int op.msg f_lrm_lastrc) (negsuc 0)

  abbrev pub is_new : ℤ → Op ms → Bool
  is_new status op =
      rc_changed status (rc_of op) (or_else (value_int op.msg f_lrm_lastrc) (negsuc 0))

module _ (ms : Messages) (w : World ms) (h : (i : ℕ) → w.mem i ≡ true) where
  open ms use {value_int}

  pub written :
      (i : ℕ) (op : Op ms) (n : String) (v : ℤ)
      → is_written n ≡ true
      → (m : ms.Msg) × (ms.mod_int true op.msg n v ≡ some m)
        × (write ms w (w.mem i) op n v ≡ (record op { msg = m }, true))
  unfolding write
  written i op n v r = let (m, e) = ms.mod_int-some op.msg n v r in (m, e, rw (h i, e, write))

  -- The timestamps are stored, and the status stays.
  stored :
      (op : Op ms)
      → (m : ms.Msg) × (store_timestamps ms w op ≡ (record op { msg = m }, true))
        × (value_int m f_lrm_opstatus ≡ value_int op.msg f_lrm_opstatus)
  unfolding store_timestamps
  stored op =
      let (m1, e1, w1) = written 1 op f_lrm_t_run (tm2unix ms w op.t_perform) refl in
      let (m2, e2, w2) =
        written 2 (record op { msg = m1 }) f_lrm_t_rcchange (tm2unix ms w op.t_rcchange) refl in
      let (m3, e3, w3) =
        written 3 (record op { msg = m2 }) f_lrm_exec_time (pos (exec_time ms w op)) refl in
      let (m4, e4, w4) =
        written 4 (record op { msg = m3 }) f_lrm_queue_time (pos (queue_time ms w op)) refl in
      (
        m4,
        rw (w1, w2, w3, w4),
        ms.value_int-mod_int f_lrm_queue_time f_lrm_opstatus e4 refl refl
            ∙ ms.value_int-mod_int f_lrm_exec_time f_lrm_opstatus e3 refl refl
            ∙ ms.value_int-mod_int f_lrm_t_rcchange f_lrm_opstatus e2 refl refl
            ∙ ms.value_int-mod_int f_lrm_t_run f_lrm_opstatus e1 refl refl,
      )

  -- `on_op_done` does not return early, and changes only times and fields of the message before it
  -- takes the operation from the list.
  pub record Leaves (rsc : Rsc ms) (op : Op ms) (target status : ℤ) : Type 0 where
    pub last : Op ms
    pub returns :
        on_op_done ms w rsc op
        ≡ leave_queue ms w rsc last status (rc_of ms op) target (is_new ms status op)
    pub ptr : last.ptr ≡ op.ptr
    pub client_id : last.client_id ≡ op.client_id
    pub call_id : last.call_id ≡ op.call_id
    pub interval : last.interval ≡ op.interval
    pub is_cancelled : last.is_cancelled ≡ op.is_cancelled
    pub opstatus : value_int last.msg f_lrm_opstatus ≡ some status

  pub leaves :
      (rsc : Rsc ms) (op : Op ms) (target status : ℤ)
      → IsLive ms op
      → value_int op.msg f_lrm_targetrc ≡ some target
      → value_int op.msg f_lrm_opstatus ≡ some status
      → Leaves rsc op target status
  unfolding on_op_done
  leaves rsc op target status l t s =
      let op0 = record op { t_done = w.now } in
      let (m, e, wr) = written 0 op0 f_lrm_lastrc (rc_of ms op) refl in
      elim (Bool-cases (is_new ms status op)) [
        | inl n ↦
            let (m', st, k) = stored (record op0 { msg = m; t_rcchange = op.t_perform }) in
            record {
              last = record op0 { msg = m'; t_rcchange = op.t_perform };
              returns = rw (l, t, s, n, wr, st);
              ptr = refl;
              client_id = refl;
              call_id = refl;
              interval = refl;
              is_cancelled = refl;
              opstatus = k ∙ ms.value_int-mod_int f_lrm_lastrc f_lrm_opstatus e refl refl ∙ s;
            }
        | inr n ↦
            let (m', st, k) = stored op0 in
            record {
              last = record op0 { msg = m' };
              returns = rw (l, t, s, n, st);
              ptr = refl;
              client_id = refl;
              call_id = refl;
              interval = refl;
              is_cancelled = refl;
              opstatus = k ∙ s;
            }
      ]
