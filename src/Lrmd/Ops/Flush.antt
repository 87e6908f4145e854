-- ===== src/Lrmd/Ops/Flush.antt =====
-- What `flush_op` and `flush_all` do where memory is at hand.
use cluster_glue_import.Prelude.{refl, ℕ, ◌≡◌, Bool, true, false, not, arith, pos, int_eq}
use cluster_glue_import.Lrmd.Messages.{Messages, f_lrm_rc, f_lrm_opstatus, lrm_op_cancelled}
use cluster_glue_import.Lrmd.Ops.{Op, is_busy, no_process, flush_op}

-- Memory at hand throughout.
abbrev pub at_hand : ℕ → Bool
at_hand site = true

abbrev pub always : ℕ → ℕ → Bool
always round site = true

module _ (ms : Messages) where
  abbrev pub pending : Op ms → Bool
  pending op = int_eq op.exec_pid no_process

  -- Not destroyed.
  abbrev pub IsLive : Op ms → Type 0
  IsLive op = int_eq op.exec_pid (pos 0) ≡ false

  abbrev pub flushed : Op ms → Op ms
  flushed op = (flush_op ms at_hand op).0

  -- `flush_op` reports a process that is running, and cancels its operation instead.
  pub flush_op-busy :
      (op : Op ms) → IsLive op → is_busy (flush_op ms at_hand op).1 ≡ not (pending op)
  unfolding flush_op
  flush_op-busy op h =
      let (m1, e1) = ms.mod_int-some op.msg f_lrm_rc (pos 0) refl in
      let (m2, e2) = ms.mod_int-some m1 f_lrm_opstatus lrm_op_cancelled refl in
      ground (arith, e1, e2)

  pub flush_op-same :
      (mem : ℕ → Bool) (op : Op ms)
      → ((flush_op ms mem op).0.ptr ≡ op.ptr)
        × ((flush_op ms mem op).0.client_id ≡ op.client_id)
        × ((flush_op ms mem op).0.exec_pid ≡ op.exec_pid)
  unfolding flush_op
  flush_op-same mem op = ground arith

  pub flush_op-cancelled :
      (op : Op ms) → IsLive op → pending op ≡ false → (flushed op).is_cancelled ≡ true
  unfolding flush_op
  flush_op-cancelled op h p =
      let (m1, e1) = ms.mod_int-some op.msg f_lrm_rc (pos 0) refl in ground (arith, e1)
