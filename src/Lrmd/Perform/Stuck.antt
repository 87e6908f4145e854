-- ===== src/Lrmd/Perform/Stuck.antt =====
-- `perform_op` (lrm/lrmd/lrmd.c) where no process can be started for an operation that has no
-- target.
use cluster_glue_import.Prelude.{
  ℕ, zero, suc, ◌<◌, ◌≡◌, refl, ap, ◌∙◌, true, false, ◌&&◌, not, List, [], ◌∷◌, none, arith, ◌==◌,
  ℤ, pos, int_eq, Option-cases, inl, inr, leb, negsuc, ==_refl,
}
use cluster_glue_import.Lrmd.Messages.{Messages, f_lrm_opstatus, f_lrm_targetrc, lrm_op_error}
use cluster_glue_import.Lrmd.Ops.{Op, Rsc, Notice, no_process, ha_fail}
use cluster_glue_import.Lrmd.Done.{World, on_op_done, put_op}
use cluster_glue_import.Lrmd.Perform.{no_child, Round, perform_ra_op, mark_failed, perform_loop}

module _ (ms : Messages) where
  open ms use {value_int, add_int}

  marked_targetless :
      (w : World ms) (op : Op ms)
      → value_int op.msg f_lrm_targetrc ≡ none
      → value_int (mark_failed ms w op).msg f_lrm_targetrc ≡ none
  unfolding mark_failed
  marked_targetless w op t =
      elim (Option-cases (add_int (w.mem 7) op.msg f_lrm_opstatus lrm_op_error)) [
        | inl n ↦ rw (n, mark_failed) t
        | inr (m, e) ↦
            rw (e, mark_failed)
              (ms.value_int-add_int f_lrm_opstatus f_lrm_targetrc e refl refl ∙ rw t)
      ]

  pub zero_apart : (x : ℤ) → int_eq x no_process ≡ true → int_eq x (pos 0) ≡ false
  zero_apart (pos n) h = absurd cc
  zero_apart (negsuc n) h = refl

  back :
      (w : World ms) (rsc : Rsc ms) (op : Op ms) (ops : List (Op ms))
      → value_int op.msg f_lrm_targetrc ≡ none
      → int_eq op.exec_pid no_process ≡ true
      → on_op_done ms w (record rsc { op_list = op ∷ ops }) op ≡ record {
        rsc = record rsc { op_list = record op { t_done = w.now } ∷ ops };
        told = [];
        gone = false;
        rc = ha_fail;
      }
  unfolding on_op_done put_op
  back w rsc op ops t p = rw (zero_apart op.exec_pid p, t, ==_refl op.ptr)

  pub not_started :
      (now : ℕ) (rsc : Rsc ms) (n : ℕ) (op : Op ms)
      → int_eq op.exec_pid no_process ≡ true
      → perform_ra_op ms now no_child rsc n op
        ≡ record { op = record op { t_perform = now }; child_count = n; killseq = []; rc = ha_fail }
  unfolding perform_ra_op
  not_started now rsc n op p = rw (zero_apart op.exec_pid p)

  marked_pid : (w : World ms) (op : Op ms) → (mark_failed ms w op).exec_pid ≡ op.exec_pid
  unfolding mark_failed
  marked_pid w op = ground arith

  -- While `fork` fails and fewer than `max_child_count` processes run, the loop of `perform_op` does
  -- not end for an operation without a target that waits at the head of the queue.
  pub perform_loop_stuck :
      (rounds : ℕ → Round ms) (max : ℕ) (fuel : ℕ) (rsc : Rsc ms) (op : Op ms) (ops : List (Op ms))
      (n : ℕ) (told : List (Notice ms))
      → ((i : ℕ) → (rounds i).fork ≡ no_child)
      → rsc.op_list ≡ op ∷ ops
      → value_int op.msg f_lrm_targetrc ≡ none
      → int_eq op.exec_pid no_process ≡ true
      → n < max
      → perform_loop ms fuel rounds max rsc n told ≡ none
  unfolding perform_loop
  perform_loop_stuck rounds max zero rsc op ops n told f h t p k = refl
  perform_loop_stuck rounds max (suc fuel) rsc op ops n told f h t p k =
      let w = (rounds fuel).world in
      let op1 = record op { t_perform = w.now } in
      let op2 = mark_failed ms w op1 in
      let t2 = marked_targetless w op1 t in
      let p2 : int_eq op2.exec_pid no_process ≡ true =
        ap (λ x. int_eq x no_process) (marked_pid w op1) ∙ p in
      let full : (not (op.weight == 0) && leb max n) ≡ false = ground (arith, k) in
      rw (h, p, full, f fuel, not_started w.now rsc n op p, back w rsc op2 ops t2 p2, perform_loop)
        (perform_loop_stuck rounds max fuel
          (record rsc { op_list = record op2 { t_done = w.now } ∷ ops })
          (record op2 { t_done = w.now }) ops n _ f refl t2 p2 k)
