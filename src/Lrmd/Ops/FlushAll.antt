-- ===== src/Lrmd/Ops/FlushAll.antt =====
-- The loop of `flush_all` comes to an end, and what it leaves behind.
use cluster_glue_import.Prelude.{
  ℕ, zero, suc, ◌+◌, ◌*◌, ◌<◌, ◌≤◌, ◌≡◌, refl, ap, ◌∙◌, Bool, true, false, ◌&&◌, ◌||◌, not, List,
  [], ◌∷◌, Option, some, arith, if◌then◌else◌, rev_onto, length, All, All-rev_onto, length-rev_onto,
  map-rev_onto, map, Bool-cases, inl, inr, ◌⊎◌,
}
use cluster_glue_import.Lrmd.Messages.{Messages}
use cluster_glue_import.Lrmd.Ops.{
  Op, Rsc, Clients, is_busy, flush_op, flush_loop, flush_all, spared, remove_op_history,
}
use cluster_glue_import.Lrmd.Ops.Flush.{
  at_hand, always, pending, IsLive, flushed, flush_op-busy, flush_op-same, flush_op-cancelled,
}

le_mul : (c c' x : ℕ) → c ≤ c' → c * x ≤ c' * x
le_mul c c' x h = grind arith

less_skip : (c c' s t f : ℕ) → c ≤ c' → suc t + c' * (s + suc t) < suc f → t + c * (suc s + t) < f
less_skip c c' s t f h k = omega (arith, le_mul c c' (s + suc t) h)

less_gone : (c s t f : ℕ) → suc t + suc c * (s + suc t) < suc f → s + t + c * (0 + (s + t)) < f
less_gone c s t f h = omega arith

module _ (ms : Messages) (pid : ℕ) where
  -- An operation that goes: it is to be flushed and no process runs for it.
  abbrev pub doomed : Op ms → Bool
  doomed op = not (spared ms pid op) && pending ms op

  -- One that has to wait for its process.
  abbrev pub waits : Op ms → Bool
  waits op = not (spared ms pid op) && not (pending ms op)

  -- The addresses of the operations that stay, in order.
  abbrev pub staying : List (Op ms) → List ℕ
  staying [] = []
  staying (o ∷ os) = if doomed o then staying os else o.ptr ∷ staying os

  abbrev pub any_waits : List (Op ms) → Bool
  any_waits [] = false
  any_waits (o ∷ os) = waits o || any_waits os

  abbrev count : List (Op ms) → ℕ
  count [] = 0
  count (o ∷ os) = if doomed o then suc (count os) else count os

  -- Left alone, or running and marked as cancelled.
  abbrev pub IsMarked : Op ms → Type 0
  IsMarked op = (spared ms pid op ≡ true) ⊎ ((pending ms op ≡ false) × (op.is_cancelled ≡ true))

  abbrev ptrs : List (Op ms) → List ℕ
  ptrs = map (λ (o : Op ms). o.ptr)

  record Seen (seen : List (Op ms)) (busy : Bool) : Type 0 where
    stays : All (λ o. doomed o ≡ false) seen
    live : All (IsLive ms) seen
    marked : All IsMarked seen
    noticed : any_waits seen ≡ true → busy ≡ true

  staying-rev :
      (seen todo : List (Op ms))
      → All (λ o. doomed o ≡ false) seen
      → staying (rev_onto seen todo) ≡ rev_onto (ptrs seen) (staying todo)
  staying-rev [] todo h = refl
  staying-rev (o ∷ seen) todo (h, hs) = rw (staying-rev seen (o ∷ todo) hs, h)

  count-rev :
      (seen todo : List (Op ms))
      → All (λ o. doomed o ≡ false) seen
      → count (rev_onto seen todo) ≡ count todo
  count-rev [] todo h = refl
  count-rev (o ∷ seen) todo (h, hs) = rw (count-rev seen (o ∷ todo) hs, h)

  any_waits-rev :
      (seen todo : List (Op ms))
      → any_waits (rev_onto seen todo) ≡ (any_waits seen || any_waits todo)
  any_waits-rev [] todo = refl
  any_waits-rev (o ∷ seen) todo = ground (arith, any_waits-rev seen (o ∷ todo))

  -- How the loop ends.
  record Ends (seen todo : List (Op ms)) (busy : Bool) (r : Option (List (Op ms) × Rsc ms × Bool))
      : Type 0 where
    out : List (Op ms)
    history : Rsc ms
    told : Bool
    returns : r ≡ some (out, history, told)
    stay : ptrs out ≡ rev_onto (ptrs seen) (staying todo)
    all_marked : All IsMarked out
    tells : told ≡ (busy || any_waits todo)

  module _ (seen ops : List (Op ms)) (op : Op ms) (busy : Bool)
      {r : Option (List (Op ms) × Rsc ms × Bool)} where
    skip_ends : spared ms pid op ≡ true → Ends (op ∷ seen) ops busy r → Ends seen (op ∷ ops) busy r
    skip_ends h e = record {
      out = e.out;
      history = e.history;
      told = e.told;
      returns = e.returns;
      stay = rw h e.stay;
      all_marked = e.all_marked;
      tells = rw h e.tells;
    }

    keep_ends :
        (op' : Op ms)
        → op'.ptr ≡ op.ptr
        → spared ms pid op ≡ false
        → pending ms op ≡ false
        → Ends (op' ∷ seen) ops true r
        → Ends seen (op ∷ ops) busy r
    keep_ends op' p h k e = record {
      out = e.out;
      history = e.history;
      told = e.told;
      returns = e.returns;
      stay = rw (h, k, ← p) e.stay;
      all_marked = e.all_marked;
      tells = ground (arith, h, k, e.tells);
    }

    gone_ends :
        spared ms pid op ≡ false
        → pending ms op ≡ true
        → Seen seen busy
        → Ends [] (rev_onto seen ops) busy r
        → Ends seen (op ∷ ops) busy r
    gone_ends h k s e = record {
      out = e.out;
      history = e.history;
      told = e.told;
      returns = e.returns;
      stay = rw (h, k) (e.stay ∙ staying-rev seen ops s.stays);
      all_marked = e.all_marked;
      tells = ground (arith, h, k, e.tells, any_waits-rev seen ops, s.noticed);
    }

  skip-Seen :
      (seen : List (Op ms)) (op : Op ms) (busy : Bool)
      → spared ms pid op ≡ true
      → IsLive ms op
      → Seen seen busy
      → Seen (op ∷ seen) busy
  skip-Seen seen op busy h l s = record {
    stays = (ground arith, s.stays);
    live = (l, s.live);
    marked = (inl h, s.marked);
    noticed = ground (arith, s.noticed);
  }

  keep-Seen :
      (seen : List (Op ms)) (op : Op ms) (busy : Bool)
      → pending ms op ≡ false
      → IsLive ms op
      → Seen seen busy
      → Seen (flushed ms op ∷ seen) true
  keep-Seen seen op busy k l s =
      let same = flush_op-same ms at_hand op in
      record {
        stays = (ground (arith, same), s.stays);
        live = (ground (arith, same), s.live);
        marked = (inr (ground (arith, same), flush_op-cancelled ms op l k), s.marked);
        noticed = λ _. refl;
      }

  count-tail : (op : Op ms) (ops : List (Op ms)) → count ops ≤ count (op ∷ ops)
  count-tail op ops = ground arith

  skip_work :
      (seen ops : List (Op ms)) (op : Op ms) (fuel : ℕ)
      → length (op ∷ ops) + count (op ∷ ops) * (length seen + length (op ∷ ops)) < suc fuel
      → length ops + count ops * (suc (length seen) + length ops) < fuel
  skip_work seen ops op fuel h =
      less_skip (count ops) (count (op ∷ ops)) (length seen) (length ops) fuel (count-tail op ops) h

  gone_work :
      (seen ops : List (Op ms)) (op : Op ms) (fuel : ℕ)
      → All (λ o. doomed o ≡ false) seen
      → spared ms pid op ≡ false
      → pending ms op ≡ true
      → length (op ∷ ops) + count (op ∷ ops) * (length seen + length (op ∷ ops)) < suc fuel
      → length (rev_onto seen ops) + count (rev_onto seen ops) * (0 + length (rev_onto seen ops))
        < fuel
  gone_work seen ops op fuel st e p h =
      rw (length-rev_onto seen ops, count-rev seen ops st)
        (less_gone (count ops) (length seen) (length ops) fuel (rw (e, p) at h))

  empty-Seen : Seen [] false
  empty-Seen = record { stays = tt; live = tt; marked = tt; noticed = λ h. h }

  again-Seen : (busy : Bool) → Seen [] busy
  again-Seen busy = record { stays = tt; live = tt; marked = tt; noticed = λ h. cc }

  module _ (fuel : ℕ) (clients : Clients ms) (rsc : Rsc ms) (seen ops : List (Op ms)) (op : Op ms)
      (busy : Bool) where
    abbrev round : Option (List (Op ms) × Rsc ms × Bool)
    round = flush_loop ms (suc fuel) always clients pid rsc seen (op ∷ ops) busy

    step_skip :
        spared ms pid op ≡ true
        → round ≡ flush_loop ms fuel always clients pid rsc (op ∷ seen) ops busy
    unfolding flush_loop
    step_skip h = rw h

    step_keep :
        spared ms pid op ≡ false
        → is_busy (flush_op ms at_hand op).1 ≡ true
        → round ≡ flush_loop ms fuel always clients pid rsc (flushed ms op ∷ seen) ops true
    unfolding flush_loop
    step_keep h k = rw (h, k)

    step_gone :
        spared ms pid op ≡ false
        → is_busy (flush_op ms at_hand op).1 ≡ false
        → round
          ≡ flush_loop ms fuel always clients pid
              (remove_op_history ms clients rsc (flushed ms op))
              []
              (rev_onto seen ops)
              busy
    unfolding flush_loop
    step_gone h k = rw (h, k)

  ends :
      (fuel : ℕ) (clients : Clients ms) (rsc : Rsc ms) (seen todo : List (Op ms)) (busy : Bool)
      → Seen seen busy
      → All (IsLive ms) todo
      → length todo + count todo * (length seen + length todo) < fuel
      → Ends seen todo busy (flush_loop ms fuel always clients pid rsc seen todo busy)
  ends zero clients rsc seen todo busy s l h = absurd (omega arith)
  ends (suc fuel) clients rsc seen [] busy s l h =
      unfold flush_loop in
      record {
        out = rev_onto seen [];
        history = rsc;
        told = busy;
        returns = refl;
        stay = map-rev_onto (λ (o : Op ms). o.ptr) seen [];
        all_marked = All-rev_onto IsMarked seen [] s.marked tt;
        tells = ground arith;
      }
  ends (suc fuel) clients rsc seen (op ∷ ops) busy s (l, ls) h =
      elim (Bool-cases (spared ms pid op)) [
        | inl e ↦ rw (step_skip fuel clients rsc seen ops op busy e) (
            skip_ends seen ops op busy e (
              ends fuel clients rsc (op ∷ seen) ops busy (skip-Seen seen op busy e l s) ls
                (skip_work seen ops op fuel h)))
        | inr e ↦ elim (Bool-cases (pending ms op)) [
          | inl p ↦
              rw (step_gone fuel clients rsc seen ops op busy e (rw (flush_op-busy ms op l, p))) (
                gone_ends seen ops op busy e p s (
                  ends fuel clients (remove_op_history ms clients rsc (flushed ms op)) []
                    (rev_onto seen ops) busy (again-Seen busy)
                    (All-rev_onto (IsLive ms) seen ops s.live ls)
                    (gone_work seen ops op fuel s.stays e p h)))
          | inr p ↦
              rw (step_keep fuel clients rsc seen ops op busy e (rw (flush_op-busy ms op l, p))) (
                keep_ends seen ops op busy (flushed ms op) (flush_op-same ms at_hand op).0 e p (
                  ends fuel clients rsc (flushed ms op ∷ seen) ops true
                    (keep-Seen seen op busy p l s) ls (skip_work seen ops op fuel h)))
        ]
      ]

  count-le : (ops : List (Op ms)) → count ops ≤ length ops
  count-le [] = omega arith
  count-le (o ∷ ops) = ground (arith, count-le ops)

  enough_rounds :
      (ops : List (Op ms))
      → length ops + count ops * (0 + length ops) < suc (length ops + length ops * length ops)
  enough_rounds ops = omega (arith, le_mul (count ops) (length ops) (length ops) (count-le ops))

  -- Where memory is at hand and no operation was destroyed, `flush_all` ends. What stays are, in
  -- order, the operations of other clients, where one client's are flushed, and those with a running
  -- process, which are marked as cancelled. It returns TRUE exactly if there is one of the latter.
  pub flush_all_lem :
      (clients : Clients ms) (rsc : Rsc ms) (ops : List (Op ms))
      → All (IsLive ms) ops
      → (out : List (Op ms)) × (rsc' : Rsc ms) × (flush_all ms always clients pid rsc ops
          ≡ some (out, rsc', any_waits ops))
        × (map (λ (o : Op ms). o.ptr) out ≡ staying ops)
        × All IsMarked out
  unfolding flush_all
  flush_all_lem clients rsc ops l =
      let e =
        ends (suc (length ops + length ops * length ops)) clients rsc [] ops false empty-Seen l
          (enough_rounds ops) in
      (
        e.out,
        e.history,
        e.returns ∙ ap (λ b. some (e.out, e.history, b)) e.tells,
        e.stay,
        e.all_marked,
      )
