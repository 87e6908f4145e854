-- ===== src/Lrmd/Ops/FlushRest.antt =====
-- What `flush_all` (lrm/lrmd/lrmd.c) does not touch.
use cluster_glue_import.Prelude.{
  ℕ, zero, suc, ◌≡◌, refl, ◌∙◌, subst, Bool, true, false, List, [], ◌∷◌, Option, none, some,
  Bool-cases, inl, inr, rev_onto,
}
use cluster_glue_import.Lrmd.Messages.{Messages}
use cluster_glue_import.Lrmd.Ops.{
  Op, Rsc, Clients, is_busy, flush_op, flush_loop, flush_all, spared, remove_op_history,
}

module _ (ms : Messages) where
  -- Two resources that differ in the history of operations at most.
  pub record SameRest (a b : Rsc ms) : Type 0 where
    pub id : a.id ≡ b.id
    pub op_list : a.op_list ≡ b.op_list
    pub repeat_op_list : a.repeat_op_list ≡ b.repeat_op_list
    pub state : a.state ≡ b.state

  abbrev RestKept : Rsc ms → Option (List (Op ms) × Rsc ms × Bool) → Type 0
  RestKept rsc none = Unit
  RestKept rsc (some (out, rsc', busy)) = SameRest rsc' rsc

  forgotten :
      (clients : Clients ms) (rsc : Rsc ms) (op : Op ms)
      → SameRest (remove_op_history ms clients rsc op) rsc
  unfolding remove_op_history
  forgotten clients rsc op = record {
    id = refl;
    op_list = refl;
    repeat_op_list = refl;
    state = refl;
  }

  further :
      (a b : Rsc ms) (r : Option (List (Op ms) × Rsc ms × Bool))
      → SameRest a b
      → RestKept a r
      → RestKept b r
  further a b none s h = tt
  further a b (some (out, rsc', busy)) s h = record {
    id = h.id ∙ s.id;
    op_list = h.op_list ∙ s.op_list;
    repeat_op_list = h.repeat_op_list ∙ s.repeat_op_list;
    state = h.state ∙ s.state;
  }

  loop_rest :
      (fuel : ℕ) (mem : ℕ → ℕ → Bool) (clients : Clients ms) (pid : ℕ) (rsc : Rsc ms)
      (seen todo : List (Op ms)) (busy : Bool)
      → RestKept rsc (flush_loop ms fuel mem clients pid rsc seen todo busy)
  unfolding flush_loop
  loop_rest zero mem clients pid rsc seen todo busy = tt
  loop_rest (suc fuel) mem clients pid rsc seen [] busy = record {
    id = refl;
    op_list = refl;
    repeat_op_list = refl;
    state = refl;
  }
  loop_rest (suc fuel) mem clients pid rsc seen (op ∷ ops) busy =
      elim (Bool-cases (spared ms pid op)) [
        | inl s ↦ rw (s, flush_loop) (loop_rest fuel mem clients pid rsc (op ∷ seen) ops busy)
        | inr s ↦ elim (Bool-cases (is_busy (flush_op ms (mem fuel) op).1)) [
          | inl b ↦
              rw (s, b, flush_loop)
                (loop_rest fuel mem clients pid rsc ((flush_op ms (mem fuel) op).0 ∷ seen) ops true)
          | inr b ↦
              let rsc' = remove_op_history ms clients rsc (flush_op ms (mem fuel) op).0 in
              rw (s, b, flush_loop)
                (further rsc' rsc _ (forgotten clients rsc (flush_op ms (mem fuel) op).0)
                  (loop_rest fuel mem clients pid rsc' [] (rev_onto seen ops) busy))
        ]
      ]

  -- Where `flush_all` comes to an end, it has changed the history of the resource at most.
  pub flush_all-SameRest :
      (mem : ℕ → ℕ → Bool) (clients : Clients ms) (pid : ℕ) (rsc : Rsc ms) (ops : List (Op ms))
      {out : List (Op ms)} {rsc' : Rsc ms} {busy : Bool}
      → flush_all ms mem clients pid rsc ops ≡ some (out, rsc', busy)
      → SameRest rsc' rsc
  unfolding flush_all
  flush_all-SameRest mem clients pid rsc ops e =
      subst (RestKept rsc) e (loop_rest _ mem clients pid rsc [] ops false)
