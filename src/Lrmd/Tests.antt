-- ===== src/Lrmd/Tests.antt =====
-- A resource with a few operations: tests, and the theorems at concrete inputs.
use cluster_glue_import.Prelude.{◌≡◌, refl, false, List, [], ◌∷◌, none, some, arith, pos, All, map}
use cluster_glue_import.Lrmd.Messages.{f_lrm_opstatus, lrm_op_cancelled, everytime}
use cluster_glue_import.Lrmd.Ops.{Op, Rsc, Notice, ha_rscbusy, flush_all}
use cluster_glue_import.Lrmd.Ops.Flush.{always}
use cluster_glue_import.Lrmd.Ops.FlushAll.{flush_all_lem, staying, any_waits, IsMarked}
use cluster_glue_import.Lrmd.Done.{on_op_done}
use cluster_glue_import.Lrmd.Done.Outcome.{done_repeats, done_status}
use cluster_glue_import.Lrmd.Perform.{Performed, perform_op, perform_loop, stop}
use cluster_glue_import.Lrmd.Perform.Queue.{Tail, perform_op-Tail}
use cluster_glue_import.Lrmd.Perform.Stuck.{perform_loop_stuck}
use cluster_glue_import.Lrmd.Handlers.{Handled, on_msg_del_rsc}
use cluster_glue_import.Lrmd.Handlers.Delete.{each_time, IsEnding, on_msg_del_rsc_lem}
use cluster_glue_import.Lrmd.Sample.{
  bare, no_target, has_target, has_status, rounds, fields, rsc_of, clients, calm, monitor, stopped,
  start,
}

flush_all_lem_example :
    (out : List (Op fields)) × (rsc' : Rsc fields) × (flush_all fields always clients 0
        (rsc_of (monitor ∷ start ∷ []) [])
        (monitor ∷ start ∷ [])
      ≡ some (out, rsc', any_waits fields 0 (monitor ∷ start ∷ [])))
    × (map (λ (o : Op fields). o.ptr) out ≡ staying fields 0 (monitor ∷ start ∷ []))
    × All (IsMarked fields 0) out
flush_all_lem_example =
    flush_all_lem fields 0 clients (rsc_of (monitor ∷ start ∷ []) []) (monitor ∷ start ∷ [])
      (refl, (refl, tt))

done_repeats_example :
    map
      (λ (o : Op fields). o.call_id)
      (on_op_done fields calm (rsc_of (monitor ∷ start ∷ []) []) monitor).rsc.repeat_op_list
    ≡ 1 ∷ []
done_repeats_example =
    done_repeats fields calm (λ i. refl) (rsc_of (monitor ∷ start ∷ []) []) monitor everytime
      (pos 0) refl has_target has_status

done_status_example :
    All
      (λ (n : Notice fields).
        (n.pid ≡ 50) × (fields.value_int n.body f_lrm_opstatus ≡ some lrm_op_cancelled))
      (on_op_done fields calm (rsc_of (stopped ∷ []) []) stopped).told
done_status_example =
    done_status fields calm (λ i. refl) (rsc_of (stopped ∷ []) []) stopped everytime (pos 0) refl
      has_target has_status

perform_op-Tail_example :
    (p : Performed fields) × (perform_op fields rounds 4 (rsc_of (start ∷ []) []) 0 ≡ some p)
    × Tail fields 4 (start ∷ []) p
perform_op-Tail_example =
    perform_op-Tail fields rounds 4 (rsc_of (start ∷ []) []) 0
      (λ i. record { mem = λ j. refl; started = refl })
      (record { weight = omega arith; target = everytime; has_target = has_target }, tt)
      (omega arith)

abbrev targetless : Op fields
targetless = record start { msg = bare }

perform_loop_stuck_example :
    perform_loop fields 100 rounds 4 (rsc_of (targetless ∷ []) []) 0 [] ≡ none
perform_loop_stuck_example =
    perform_loop_stuck fields rounds 4 100 (rsc_of (targetless ∷ []) []) targetless [] 0 []
      (λ i. refl) refl no_target refl (omega arith)

on_msg_del_rsc_lem_example :
    (h : Handled fields) × (on_msg_del_rsc fields
        (each_time fields)
        clients
        (rsc_of (monitor ∷ start ∷ []) [])
      ≡ some h)
    × (h.gone ≡ false)
    × (h.rc ≡ ha_rscbusy)
    × All (IsEnding fields) h.rsc.op_list
    × (h.rsc.state ≡ 1)
    × (perform_op fields rounds 4 h.rsc 0 ≡ stop fields h.rsc 0 [])
on_msg_del_rsc_lem_example =
    on_msg_del_rsc_lem fields clients (rsc_of (monitor ∷ start ∷ []) []) (refl, (refl, tt)) tt tt
      rounds 4 0
