-- ===== src/Replytrack/Replies/Expected.antt =====
-- When `replytrack_gotreply` says that the last reply is in, and what `replytrack_new` waits for.
use cluster_glue_import.Prelude.{
  ◌≡◌, refl, ◌↔◌, Bool, true, false, ◌||◌, List, [], ◌∷◌, String, is_zero, if◌then◌else◌, arith,
  inl, inr,
}
use cluster_glue_import.Uuid.{Uuid}
use cluster_glue_import.Replytrack.Tables.{Glib, del_node_from_hashtables}
use cluster_glue_import.Replytrack.Tables.Keys.{Key, key_of, key_eq, members, without, del-members}
use cluster_glue_import.Replytrack.Tables.Counts.{
  Counted, del-Counted, nobody, tracked, outstanding,
}
use cluster_glue_import.Replytrack.Replies.{Replytrack, replytrack_gotreply}

-- Whether one of the replies is of the node.
abbrev pub replied : Key → List (String × Uuid) → Bool
replied k [] = false
replied k ((n, u) ∷ rs) = key_eq (key_of n u) k || replied k rs

module _ (g : Glib) where
  open g use {names, ids}

  abbrev pub expects : Replytrack g → Key → Bool
  expects rl k = members g rl.tables k

  abbrev pub after : Replytrack g → String → Uuid → Replytrack g
  after rl n u = (replytrack_gotreply g rl n u).0

  after-tables :
      (rl : Replytrack g) (n : String) (u : Uuid)
      → (after rl n u).tables ≡ (del_node_from_hashtables g rl.tables n u).0
  unfolding replytrack_gotreply
  after-tables rl n u = ground arith

  -- A reply takes the replier off the list and nobody else.
  pub after-expects :
      (rl : Replytrack g) (n : String) (u : Uuid) (k : Key)
      → expects (after rl n u) k ≡ without (key_of n u) (expects rl) k
  after-expects rl n u k = rw (after-tables rl n u) (del-members g rl.tables n u k)

  pub after-Counted :
      (rl : Replytrack g) (n : String) (u : Uuid)
      → Counted g rl.tables
      → Counted g (after rl n u).tables
  after-Counted rl n u c = rw (after-tables rl n u) (del-Counted g rl.tables n u c)

  last-is_zero :
      (rl : Replytrack g) (n : String) (u : Uuid)
      → (replytrack_gotreply g rl n u).2 ≡ is_zero (outstanding g (after rl n u).tables)
  unfolding replytrack_gotreply
  last-is_zero rl n u = ground arith

  last_none :
      (rl : Replytrack g) (n : String) (u : Uuid)
      → Counted g rl.tables
      → ((k : Key) → expects (after rl n u) k ≡ false)
      → (replytrack_gotreply g rl n u).2 ≡ true
  last_none rl n u c h =
      rw (last-is_zero rl n u) (elim (tracked g (after rl n u).tables (after-Counted rl n u c)) [
        | inl z ↦ z
        | inr (k, m) ↦ cc (h k)
      ])

  -- `replytrack_gotreply` returns TRUE exactly if nobody is expected any more.
  pub gotreply_last_iff :
      (rl : Replytrack g) (n : String) (u : Uuid)
      → Counted g rl.tables
      → ((replytrack_gotreply g rl n u).2 ≡ true) ↔ ((k : Key) → expects (after rl n u) k ≡ false)
  gotreply_last_iff rl n u c = (
    λ h. nobody g (after rl n u).tables (after-Counted rl n u c) (rw (← last-is_zero rl n u) h),
    last_none rl n u c,
  )

  -- `replytrack_gotreply` over the replies of several nodes, one after another.
  pub after_all : Replytrack g → List (String × Uuid) → Replytrack g
  after_all rl [] = rl
  after_all rl ((n, u) ∷ rs) = after_all (after rl n u) rs

  -- After some replies a node is expected if it was and has not replied.
  pub after_all-expects :
      (rl : Replytrack g) (rs : List (String × Uuid)) (k : Key)
      → expects (after_all rl rs) k ≡ (if replied k rs then false else expects rl k)
  unfolding after_all
  after_all-expects rl [] k = refl
  after_all-expects rl ((n, u) ∷ rs) k =
      ground (arith, after_all-expects (after rl n u) rs k, after-expects rl n u k)
