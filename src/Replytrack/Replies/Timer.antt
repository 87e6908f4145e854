-- ===== src/Replytrack/Replies/Timer.antt =====
-- The completion callbacks of a reply tracker, as replies come in and its timer runs out.
use cluster_glue_import.Prelude.{
  ℕ, ◌≡◌, refl, sym, ◌∙◌, Bool, true, false, ◌&&◌, not, ◌==◌, is_some, List, [], ◌∷◌, ◌++◌, Option,
  none, some, String, ltb, append-nil, if◌then◌else◌, ◌⊎◌, inl, inr, Bool-cases, arith,
}
use cluster_glue_import.Uuid.{Uuid}
use cluster_glue_import.Replytrack.Tables.{Glib, Memory, NodeTables, del_node_from_hashtables}
use cluster_glue_import.Replytrack.Replies.{
  Replytrack, Completion, all_received, timed_out, completes, finish, replytrack_gotreply,
  replytrack_timeout_helper, replytrack_new, source_remove,
}
use cluster_glue_import.Replytrack.Nodes.{Nodetrack}

module _ (g : Glib) where
  -- GLib's main loop on a timer that has run out: its function is called, and the timer is taken out
  -- if this returns FALSE.
  abbrev pub dispatched : ℕ → Replytrack g × List Completion × Bool → Replytrack g
  dispatched id (rl, cs, stays) =
      if stays then rl else record rl { sources = source_remove id rl.sources }

  -- A reply comes in, or a timer of the main loop runs out.
  pub data Step (rl : Replytrack g) : List Completion → Replytrack g → Type 0 where
    replies :
        (n : String) (u : Uuid)
        → Step rl (replytrack_gotreply g rl n u).1 (replytrack_gotreply g rl n u).0
    expires :
        (id : ℕ) (earlier later : List ℕ)
        → rl.sources ≡ earlier ++ id ∷ later
        → Step rl
            (replytrack_timeout_helper g rl).1
            (dispatched id (replytrack_timeout_helper g rl))

  -- The callbacks of a run, in order.
  pub data Run (rl : Replytrack g) : List Completion → Replytrack g → Type 0 where
    start : Run rl [] rl
    next :
        {cs ds es : List Completion} {rl' rl'' : Replytrack g}
        → Run rl cs rl'
        → Step rl' ds rl''
        → es ≡ cs ++ ds
        → Run rl es rl''

-- No timeout among the callbacks.
abbrev pub NoTimeout : List Completion → Type 0
NoTimeout [] = Unit
NoTimeout (all_received ∷ cs) = NoTimeout cs
NoTimeout (timed_out ∷ cs) = ⊥

-- A timeout stands nowhere but in the first place.
abbrev pub TimeoutFirst : List Completion → Type 0
TimeoutFirst [] = Unit
TimeoutFirst (c ∷ cs) = NoTimeout cs

NoTimeout-snoc : (cs : List Completion) → NoTimeout cs → NoTimeout (cs ++ all_received ∷ [])
NoTimeout-snoc [] h = tt
NoTimeout-snoc (all_received ∷ cs) h = NoTimeout-snoc cs h
NoTimeout-snoc (timed_out ∷ cs) h = elim h [ ]

TimeoutFirst-snoc :
    (cs : List Completion) → TimeoutFirst cs → TimeoutFirst (cs ++ all_received ∷ [])
TimeoutFirst-snoc [] h = tt
TimeoutFirst-snoc (c ∷ cs) h = NoTimeout-snoc cs h

module _ (g : Glib) where
  -- No timer is in the main loop, or just the one whose id the tracker has.
  pub data AtMostOne (rl : Replytrack g) : Type 0 where
    none_left : rl.sources ≡ [] → AtMostOne rl
    one_left : rl.sources ≡ rl.timerid ∷ [] → ltb 0 rl.timerid ≡ true → AtMostOne rl

  -- So it is in a new reply tracker, as the ids of timers are not 0.
  pub new-AtMostOne :
      (allocated : Bool) (raw : NodeTables g) (m : Memory) (mbr : Nodetrack g) (f : Option ℕ)
      (timeout_ms user_data timer : ℕ) (rl : Replytrack g) (mbr' : Nodetrack g)
      → ltb 0 timer ≡ true
      → replytrack_new g allocated raw m mbr f timeout_ms user_data timer ≡ some (rl, mbr')
      → AtMostOne rl
  unfolding replytrack_new
  new-AtMostOne allocated raw m mbr f timeout_ms user_data timer rl mbr' h e =
      elim (Bool-cases (not (timeout_ms == 0) && is_some f)) [
        | inl t ↦ one_left (ground (arith, e, t)) (ground (arith, e, t, h))
        | inr t ↦ none_left (ground (arith, e, t))
      ]

  record Inv (cs : List Completion) (rl : Replytrack g) : Type 0 where
    ordered : TimeoutFirst cs
    silent : (rl.sources ≡ []) ⊎ ((cs ≡ []) × AtMostOne rl)

  received-TimeoutFirst :
      (cs : List Completion) (f : Option ℕ)
      → TimeoutFirst cs
      → TimeoutFirst (cs ++ completes g f all_received)
  received-TimeoutFirst cs none h = rw (append-nil) h
  received-TimeoutFirst cs (some f) h = TimeoutFirst-snoc cs h

  removed : (rl : Replytrack g) → AtMostOne rl → (finish g rl true).0.sources ≡ []
  unfolding finish
  removed rl (none_left e) = ground (arith, e)
  removed rl (one_left e h) = rw (h, e) (ground arith)

  Inv-AtMostOne : {cs : List Completion} {rl : Replytrack g} → Inv cs rl → AtMostOne rl
  Inv-AtMostOne i = elim (i.silent) [ inl e ↦ none_left e | inr (_, s) ↦ s ]

  finish-Inv :
      (cs : List Completion) (rl : Replytrack g) (last : Bool)
      → Inv cs rl
      → Inv (cs ++ (finish g rl last).1) (finish g rl last).0
  unfolding finish
  finish-Inv cs rl true i = record {
    ordered = received-TimeoutFirst cs rl.callback i.ordered;
    silent = inl (removed rl (Inv-AtMostOne i));
  }
  finish-Inv cs rl false i = rw append-nil i

  tables-AtMostOne :
      (rl : Replytrack g) (t : NodeTables g) → AtMostOne rl → AtMostOne (record rl { tables = t })
  tables-AtMostOne rl t (none_left e) = none_left e
  tables-AtMostOne rl t (one_left e h) = one_left e h

  tables-Inv :
      (cs : List Completion) (rl : Replytrack g) (t : NodeTables g)
      → Inv cs rl
      → Inv cs (record rl { tables = t })
  tables-Inv cs rl t i = record {
    ordered = i.ordered;
    silent = elim (i.silent) [ inl e ↦ inl e | inr (c, s) ↦ inr (c, tables-AtMostOne rl t s) ];
  }

  expire-TimeoutFirst : (f : Option ℕ) → TimeoutFirst (completes g f timed_out)
  expire-TimeoutFirst none = tt
  expire-TimeoutFirst (some f) = tt

  nothing : (id : ℕ) (earlier later : List ℕ) → [] ≡ earlier ++ id ∷ later → ⊥
  nothing id [] later e = absurd cc
  nothing id (x ∷ earlier) later e = absurd cc

  the_one :
      (a id : ℕ) (earlier later : List ℕ)
      → a ∷ [] ≡ earlier ++ id ∷ later
      → source_remove id (a ∷ []) ≡ []
  the_one a id [] later e = ground (arith, e)
  the_one a id (x ∷ earlier) later e = absurd (nothing id earlier later cc)

  expires-Inv :
      (cs : List Completion) (rl : Replytrack g) (id : ℕ) (earlier later : List ℕ)
      → rl.sources ≡ earlier ++ id ∷ later
      → Inv cs rl
      → Inv
          (cs ++ (replytrack_timeout_helper g rl).1)
          (dispatched g id (replytrack_timeout_helper g rl))
  unfolding replytrack_timeout_helper
  expires-Inv cs rl id earlier later e i = elim (i.silent) [
    | inl n ↦ absurd (nothing id earlier later (sym n ∙ e))
    | inr (c, none_left n) ↦ absurd (nothing id earlier later (sym n ∙ e))
    | inr (c, one_left one _) ↦ rw c (record {
      ordered = expire-TimeoutFirst rl.callback;
      silent = inl (rw one (the_one rl.timerid id earlier later (sym one ∙ e)));
    })
  ]

  Step-Inv :
      {cs : List Completion} {rl : Replytrack g} {ds : List Completion} {rl' : Replytrack g}
      → Step g rl ds rl'
      → Inv cs rl
      → Inv (cs ++ ds) rl'
  unfolding replytrack_gotreply
  Step-Inv {cs} {rl = rl} (replies n u) i =
      let t = (del_node_from_hashtables g rl.tables n u).0 in
      finish-Inv cs (record rl { tables = t }) _ (tables-Inv cs rl t i)
  Step-Inv {cs} {rl = rl} (expires id earlier later e) i = expires-Inv cs rl id earlier later e i

  Run-Inv :
      {rl : Replytrack g} {cs : List Completion} {rl' : Replytrack g}
      → AtMostOne rl
      → Run g rl cs rl'
      → Inv cs rl'
  Run-Inv s start = record { ordered = tt; silent = inr (refl, s) }
  Run-Inv s (next r st e) = rw e (Step-Inv st (Run-Inv s r))

  -- In every run of replies and of timers that run out, from a tracker with no timer in the main
  -- loop but the one whose id it has, the callback hears of a timeout at most once, and never after
  -- it has heard that all replies are in.
  pub Run-TimeoutFirst :
      {rl : Replytrack g} {cs : List Completion} {rl' : Replytrack g}
      → AtMostOne rl
      → Run g rl cs rl'
      → TimeoutFirst cs
  Run-TimeoutFirst s r = (Run-Inv s r).ordered
