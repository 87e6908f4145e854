-- ===== src/Lrmd/Handlers/Delete.antt =====
-- `on_msg_del_rsc` (lrm/lrmd/lrmd.c) and what follows it.
use cluster_glue_import.Prelude.{
  ℕ, ◌≡◌, refl, sym, ap, subst, ◌∙◌, Bool, true, false, not, List, [], ◌∷◌, some, arith,
  if◌then◌else◌, All, map, Bool-cases, inl, inr,
}
use cluster_glue_import.Lrmd.Messages.{Messages}
use cluster_glue_import.Lrmd.Ops.{
  Op, Rsc, ha_ok, ha_rscbusy, Clients, no_more, rsc_frozen, removal_pending,
}
use cluster_glue_import.Lrmd.Ops.Flush.{always, pending, IsLive}
use cluster_glue_import.Lrmd.Ops.FlushAll.{flush_all_lem, staying, any_waits, IsMarked}
use cluster_glue_import.Lrmd.Ops.FlushRest.{flush_all-SameRest}
use cluster_glue_import.Lrmd.Perform.{Round, perform_op, perform_loop, stop}
use cluster_glue_import.Lrmd.Handlers.{Handled, on_msg_del_rsc, flush_both}

module _ (ms : Messages) where
  abbrev ptrs : List (Op ms) → List ℕ
  ptrs = map (λ (o : Op ms). o.ptr)

  abbrev pub each_time : ℕ → ℕ → ℕ → Bool
  each_time list round site = true

  -- Nobody waits exactly if nothing stays.
  idle : (ops : List (Op ms)) → any_waits ms 0 ops ≡ false → staying ms 0 ops ≡ []
  idle [] a = refl
  idle (o ∷ os) a = ground (arith, idle os)

  all_idle : (ops : List (Op ms)) → All (λ o. pending ms o ≡ true) ops → any_waits ms 0 ops ≡ false
  all_idle [] a = refl
  all_idle (o ∷ os) (h, a) = ground (arith, all_idle os a)

  empty : (ops : List (Op ms)) → ptrs ops ≡ [] → no_more ms ops ≡ true
  empty [] e = refl
  empty (o ∷ os) e = absurd cc

  -- A process runs for the operation, and it will be reported as cancelled.
  abbrev pub IsEnding : Op ms → Type 0
  IsEnding op = (pending ms op ≡ false) × (op.is_cancelled ≡ true)

  all-IsEnding : (ops : List (Op ms)) → All (IsMarked ms 0) ops → All IsEnding ops
  all-IsEnding [] a = tt
  all-IsEnding (o ∷ os) (inl h, a) = absurd cc
  all-IsEnding (o ∷ os) (inr h, a) = (h, all-IsEnding os a)

  frozen_stop :
      (rounds : ℕ → Round ms) (max n : ℕ) (rsc : Rsc ms)
      → rsc_frozen ms rsc ≡ true
      → perform_op ms rounds max rsc n ≡ stop ms rsc n []
  unfolding perform_op
  frozen_stop rounds max n rsc h = rw (h, perform_op)

  no_more-empty : (ops : List (Op ms)) → no_more ms ops ≡ true → ops ≡ []
  no_more-empty [] h = refl
  no_more-empty (o ∷ os) h = absurd cc

  empty_stop :
      (rounds : ℕ → Round ms) (max n : ℕ) (rsc : Rsc ms)
      → no_more ms rsc.op_list ≡ true
      → perform_op ms rounds max rsc n ≡ stop ms rsc n []
  unfolding perform_op perform_loop
  empty_stop rounds max n rsc h = elim (Bool-cases (rsc_frozen ms rsc)) [
    | inl f ↦ frozen_stop rounds max n rsc f
    | inr f ↦
        let e = no_more-empty rsc.op_list h in
        rw (f, e, perform_op, perform_loop)
          (ap (λ ops. stop ms (record rsc { op_list = ops }) n []) e)
  ]

  module _ (clients : Clients ms) (rsc : Rsc ms) (q : All (IsLive ms) rsc.op_list)
      (r : All (IsLive ms) rsc.repeat_op_list) where
    record Flushed : Type 0 where
      out : Rsc ms
      returns : flush_both ms each_time clients rsc ≡ some (out, any_waits ms 0 rsc.op_list)
      queued : ptrs out.op_list ≡ staying ms 0 rsc.op_list
      repeating : ptrs out.repeat_op_list ≡ staying ms 0 rsc.repeat_op_list
      ending : All IsEnding out.op_list
      kept : out.state ≡ rsc.state

    both : Flushed
    unfolding flush_both
    both =
        let (out1, rsc1, e1, p1, m1) = flush_all_lem ms 0 clients rsc rsc.repeat_op_list r in
        let same = flush_all-SameRest ms always clients 0 rsc rsc.repeat_op_list e1 in
        let rsc2 : Rsc ms = record rsc1 { repeat_op_list = out1 } in
        let (out2, rsc3, e2, p2, m2) =
          flush_all_lem ms 0 clients rsc2 rsc1.op_list
            (subst (All (IsLive ms)) (sym same.op_list) q) in
        let same2 = flush_all-SameRest ms always clients 0 rsc2 rsc1.op_list e2 in
        record {
          out = record rsc3 { op_list = out2 };
          returns =
              rw (e1, flush_both)
                (rw (e2) (
                  ap (λ ops. some (record rsc3 { op_list = out2 }, any_waits ms 0 ops))
                    same.op_list));
          queued = p2 ∙ ap (staying ms 0) same.op_list;
          repeating = ap ptrs same2.repeat_op_list ∙ p1;
          ending = all-IsEnding out2 m2;
          kept = same2.state ∙ same.state;
        }

    -- Let memory be at hand, no operation destroyed, and no process run for a repeating operation. A
    -- resource that no process runs for is then deleted at once. Otherwise the request is answered by
    -- HA_RSCBUSY, every operation that is left has a process and is marked as cancelled, and the
    -- removal is pending. In both cases `perform_op` starts nothing on it.
    pub on_msg_del_rsc_lem :
        All (λ o. pending ms o ≡ true) rsc.repeat_op_list
        → (rounds : ℕ → Round ms) (max n : ℕ)
        → (h : Handled ms) × (on_msg_del_rsc ms each_time clients rsc ≡ some h)
          × (h.gone ≡ not (any_waits ms 0 rsc.op_list))
          × (h.rc ≡ (if any_waits ms 0 rsc.op_list then ha_rscbusy else ha_ok))
          × All IsEnding h.rsc.op_list
          × (h.rsc.state ≡ (if any_waits ms 0 rsc.op_list then removal_pending ms else rsc.state))
          × (perform_op ms rounds max h.rsc n ≡ stop ms h.rsc n [])
    unfolding on_msg_del_rsc
    on_msg_del_rsc_lem p rounds max n =
        let f = both in
        elim (Bool-cases (any_waits ms 0 rsc.op_list)) [
          | inl b ↦ (
            record {
              rsc = record f.out { state = removal_pending ms };
              gone = false;
              told = [];
              rc = ha_rscbusy;
            },
            rw (f.returns, b),
            rw b,
            rw b,
            f.ending,
            rw b,
            frozen_stop rounds max n (record f.out { state = removal_pending ms }) refl,
          )
          | inr b ↦
              let q' = empty f.out.op_list (f.queued ∙ idle rsc.op_list b) in
              let r' =
                empty f.out.repeat_op_list
                  (f.repeating ∙ idle rsc.repeat_op_list (all_idle rsc.repeat_op_list p)) in
              (
                record { rsc = f.out; gone = true; told = []; rc = ha_ok },
                rw (f.returns, b, q', r'),
                rw b,
                rw b,
                f.ending,
                rw b f.kept,
                empty_stop rounds max n f.out q',
              )
        ]
