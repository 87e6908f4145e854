-- ===== src/Lrmd/Perform/Queue.antt =====
-- What `perform_op` (lrm/lrmd/lrmd.c) does to the queue of a resource.
use cluster_glue_import.Prelude.{
  ℕ, zero, suc, ◌≤◌, ◌<◌, ◌≡◌, refl, ap, ◌∙◌, Bool, true, false, ◌&&◌, not, List, [], ◌∷◌, ◌++◌,
  Option, some, arith, ◌==◌, ℤ, pos, negsuc, int_eq, length, All, map, Bool-cases, Option-cases,
  inl, inr, leb, drop,
}
use cluster_glue_import.Lrmd.Messages.{Messages, f_lrm_opstatus, f_lrm_targetrc, lrm_op_error}
use cluster_glue_import.Lrmd.Ops.{Op, Rsc, Notice, list_remove, no_process, rsc_frozen}
use cluster_glue_import.Lrmd.Ops.Flush.{IsLive}
use cluster_glue_import.Lrmd.Done.{World, on_op_done}
use cluster_glue_import.Lrmd.Done.Outcome.{done_leaves}
use cluster_glue_import.Lrmd.Perform.{
  Fork, no_child, child, Round, Performed, perform_ra_op, mark_failed, postpone, perform_loop,
  perform_op, stop, is_fail,
}

module _ (ms : Messages) where
  open ms use {value_int}

  -- Every loop that comes to an end leaves a tail of the queue, of which at most the head is
  -- changed.
  pub record Tail (max : ℕ) (before : List (Op ms)) (p : Performed ms) : Type 0 where
    pub started : ℕ
    pub ptrs :
        map (λ (o : Op ms). o.ptr) p.rsc.op_list ≡ drop started (map (λ (o : Op ms). o.ptr) before)
    pub rest : drop 1 p.rsc.op_list ≡ drop (suc started) before
    pub within : p.child_count ≤ max

  -- A child has a process id that is not 0, and -1 stands for none.
  abbrev pub is_started : Fork → Bool
  is_started no_child = true
  is_started (child pid pipes) = not (int_eq pid (pos 0))

  -- Memory is at hand, and a child has a process id.
  pub record IsCalm (r : Round ms) : Type 0 where
    pub mem : (i : ℕ) → r.world.mem i ≡ true
    pub started : is_started r.fork ≡ true

  -- What an operation in the queue has: at most one place among the children, and a target.
  pub record IsQueued (op : Op ms) : Type 0 where
    pub weight : op.weight ≤ 1
    pub target : ℤ
    pub has_target : value_int op.msg f_lrm_targetrc ≡ some target

  list_remove-head : (op : Op ms) (ops : List (Op ms)) → list_remove ms (op ∷ ops) op.ptr ≡ ops
  unfolding list_remove
  list_remove-head op ops = ground arith

  failed_status :
      (w : World ms) (op : Op ms)
      → w.mem 7 ≡ true
      → (x : ℤ) × (value_int (mark_failed ms w op).msg f_lrm_opstatus ≡ some x)
  unfolding mark_failed
  failed_status w op h =
      let (m, e) = ms.add_int-some op.msg f_lrm_opstatus lrm_op_error refl in
      let v = ms.value_int-add_int f_lrm_opstatus f_lrm_opstatus e refl refl in
      rw (h, e, mark_failed)
        (elim (Option-cases (value_int op.msg f_lrm_opstatus)) [
          | inl n ↦ (lrm_op_error, v ∙ rw n)
          | inr (x, q) ↦ (x, v ∙ rw q)
        ])

  failed_target :
      (w : World ms) (op : Op ms)
      → w.mem 7 ≡ true
      → value_int (mark_failed ms w op).msg f_lrm_targetrc ≡ value_int op.msg f_lrm_targetrc
  unfolding mark_failed
  failed_target w op h =
      let (m, e) = ms.add_int-some op.msg f_lrm_opstatus lrm_op_error refl in
      let v = ms.value_int-add_int f_lrm_opstatus f_lrm_targetrc e refl refl in
      rw (h, e, mark_failed) (v ∙ ground arith)

  failed_same :
      (w : World ms) (op : Op ms)
      → ((mark_failed ms w op).exec_pid ≡ op.exec_pid) × ((mark_failed ms w op).ptr ≡ op.ptr)
  unfolding mark_failed
  failed_same w op = ground arith

  spawned_same :
      (now : ℕ) (fork : Fork) (rsc : Rsc ms) (n : ℕ) (op : Op ms)
      → ((perform_ra_op ms now fork rsc n op).op.ptr ≡ op.ptr)
        × ((perform_ra_op ms now fork rsc n op).op.msg ≡ op.msg)
  unfolding perform_ra_op
  spawned_same now fork rsc n op = ground arith

  not_zero : (x : ℤ) → int_eq x no_process ≡ true → int_eq x (pos 0) ≡ false
  not_zero (pos n) h = absurd (cc)
  not_zero (negsuc n) h = refl

  spawned-IsLive :
      (now : ℕ) (fork : Fork) (rsc : Rsc ms) (n : ℕ) (op : Op ms)
      → is_started fork ≡ true
      → int_eq op.exec_pid no_process ≡ true
      → IsLive ms (perform_ra_op ms now fork rsc n op).op
  unfolding perform_ra_op
  spawned-IsLive now no_child rsc n op h p = ground (arith, not_zero op.exec_pid p)
  spawned-IsLive now (child pid pipes) rsc n op h p = ground (arith, not_zero op.exec_pid p)

  spawned_count :
      (now : ℕ) (fork : Fork) (rsc : Rsc ms) (n max : ℕ) (op : Op ms)
      → op.weight ≤ 1
      → (not (op.weight == 0) && leb max n) ≡ false
      → n ≤ max
      → (perform_ra_op ms now fork rsc n op).child_count ≤ max
  unfolding perform_ra_op
  spawned_count now fork rsc n max op h l k = ground arith

  -- The operation that could not be started leaves the queue.
  failed_leaves :
      (r : Round ms) (rsc : Rsc ms) (n : ℕ) (op : Op ms) (ops : List (Op ms))
      → IsCalm r
      → IsQueued op
      → int_eq op.exec_pid no_process ≡ true
      → let op1 = mark_failed ms r.world (perform_ra_op ms r.world.now r.fork rsc n op).op in
        (on_op_done ms r.world (record rsc { op_list = op1 ∷ ops }) op1).rsc.op_list ≡ ops
  failed_leaves r rsc n op ops c q p =
      let s = (perform_ra_op ms r.world.now r.fork rsc n op).op in
      let op1 = mark_failed ms r.world s in
      let (x, e) = failed_status r.world s (c.mem 7) in
      done_leaves ms r.world c.mem (record rsc { op_list = op1 ∷ ops }) op1 q.target x
        (rw ((failed_same r.world s).0) (spawned-IsLive r.world.now r.fork rsc n op c.started p))
        (failed_target r.world s (c.mem 7)
          ∙ ap (λ m. value_int m f_lrm_targetrc) (spawned_same r.world.now r.fork rsc n op).1
          ∙ q.has_target)
        e
      ∙ list_remove-head op1 ops

  module _ (rounds : ℕ → Round ms) (max : ℕ) (calm : (i : ℕ) → IsCalm (rounds i)) where
    abbrev Ends : List (Op ms) → Option (Performed ms) → Type 0
    Ends ops r = (p : Performed ms) × (r ≡ some p) × Tail max ops p

    unchanged :
        (ops : List (Op ms)) (rsc : Rsc ms) (n : ℕ) (told : List (Notice ms))
        → rsc.op_list ≡ ops
        → n ≤ max
        → Ends ops (stop ms rsc n told)
    unchanged ops rsc n told e k = (
      record { rsc = rsc; child_count = n; told = told },
      refl,
      record {
        started = 0;
        ptrs = ap (map (λ (o : Op ms). o.ptr)) e;
        rest = ap (drop 1) e;
        within = k;
      },
    )

    postpone-op_list : (timer : ℕ) (rsc : Rsc ms) → (postpone ms timer rsc).op_list ≡ rsc.op_list
    unfolding postpone
    postpone-op_list timer rsc = ground arith

    busy :
        (timer : ℕ) (op : Op ms) (ops : List (Op ms)) (rsc : Rsc ms) (n : ℕ)
        (told : List (Notice ms))
        → rsc.op_list ≡ op ∷ ops
        → n ≤ max
        → Ends (op ∷ ops) (elim ops as (λ x. Option (Performed ms)) [
          | [] ↦ stop ms rsc n told
          | o ∷ os ↦ stop ms (postpone ms timer rsc) n told
        ])
    busy timer op [] rsc n told e k = unchanged (op ∷ []) rsc n told e k
    busy timer op (o ∷ os) rsc n told e k =
        unchanged (op ∷ o ∷ os) (postpone ms timer rsc) n told (postpone-op_list timer rsc ∙ e) k

    head_changed :
        (op op' : Op ms) (ops : List (Op ms)) (rsc : Rsc ms) (n : ℕ) (told : List (Notice ms))
        → op'.ptr ≡ op.ptr
        → n ≤ max
        → Ends (op ∷ ops) (stop ms (record rsc { op_list = op' ∷ ops }) n told)
    head_changed op op' ops rsc n told e k = (
      record { rsc = record rsc { op_list = op' ∷ ops }; child_count = n; told = told },
      refl,
      record { started = 0; ptrs = rw e; rest = refl; within = k },
    )

    one_more :
        (op : Op ms) (ops : List (Op ms)) (r : Option (Performed ms))
        → Ends ops r
        → Ends (op ∷ ops) r
    one_more op ops r (p, e, t) =
        (p, e, record { started = suc t.started; ptrs = t.ptrs; rest = t.rest; within = t.within })

    ends :
        (fuel : ℕ) (ops : List (Op ms)) (rsc : Rsc ms) (n : ℕ) (told : List (Notice ms))
        → All IsQueued ops
        → rsc.op_list ≡ ops
        → length ops < fuel
        → n ≤ max
        → Ends ops (perform_loop ms fuel rounds max rsc n told)
    unfolding perform_loop
    ends zero ops rsc n told q e l k = absurd (omega arith)
    ends (suc fuel) [] rsc n told q e l k = rw (e, perform_loop) (unchanged [] rsc n told e k)
    ends (suc fuel) (op ∷ ops) rsc n told (q, qs) e l k =
        let r = rounds fuel in
        let s = perform_ra_op ms r.world.now r.fork rsc n op in
        let op1 = mark_failed ms r.world s.op in
        let f = on_op_done ms r.world (record rsc { op_list = op1 ∷ ops }) op1 in
        elim (Bool-cases (int_eq op.exec_pid no_process)) [
          | inr b ↦ rw (e, b, perform_loop) (busy r.world.timer op ops rsc n told e k)
          | inl p ↦ elim (Bool-cases (not (op.weight == 0) && leb max n)) [
            | inl full ↦
                rw (e, p, full, perform_loop)
                  (unchanged (op ∷ ops) (postpone ms r.world.timer rsc) n told
                    (postpone-op_list r.world.timer rsc ∙ e) k)
            | inr room ↦
                let k' = spawned_count r.world.now r.fork rsc n max op q.weight room k in
                elim (Bool-cases (is_fail ms s.rc)) [
                  | inl failed ↦
                      rw (e, p, room, failed, perform_loop)
                        (one_more op ops _ (
                          ends fuel ops f.rsc s.child_count (told ++ f.told) qs
                            (failed_leaves r rsc n op ops (calm fuel) q p) (omega arith) k'))
                  | inr ok ↦
                      rw (e, p, room, ok, perform_loop)
                        (head_changed op s.op ops rsc s.child_count told
                          (spawned_same r.world.now r.fork rsc n op).0 k')
                ]
          ]
        ]

  -- `perform_op` comes to an end where memory is at hand, no child has the process id 0, every
  -- queued operation has a target and a weight of at most 1, and no more than `max_child_count`
  -- processes run before. It takes operations off the front of the queue only, changes at most the
  -- first that is left, and never has more than `max_child_count` processes run.
  pub perform_op-Tail :
      (rounds : ℕ → Round ms) (max : ℕ) (rsc : Rsc ms) (n : ℕ)
      → ((i : ℕ) → IsCalm (rounds i))
      → All IsQueued rsc.op_list
      → n ≤ max
      → (p : Performed ms) × (perform_op ms rounds max rsc n ≡ some p) × Tail max rsc.op_list p
  unfolding perform_op
  perform_op-Tail rounds max rsc n calm q k = elim (Bool-cases (rsc_frozen ms rsc)) [
    | inl frozen ↦ rw (frozen, perform_op) (unchanged rounds max calm rsc.op_list rsc n [] refl k)
    | inr free ↦
        rw (free, perform_op)
          (ends rounds max calm (suc (length rsc.op_list)) rsc.op_list rsc n [] q refl (omega arith)
            k)
  ]
