-- ===== src/Replytrack/Replies/Start.antt =====
-- What `replytrack_new` starts from: `copy_hashtables` reads the tables that it has just created.
use cluster_glue_import.Prelude.{ℕ, ◌≡◌, refl, Bool, true, false, Option, some, String, pos, arith}
use cluster_glue_import.Uuid.{Uuid}
use cluster_glue_import.Replytrack.Tables.{
  Glib, Memory, NodeTables, copy_hashtables, copy_entries, create_new_hashtables,
}
use cluster_glue_import.Replytrack.Tables.Keys.{Key, named, known, members}
use cluster_glue_import.Replytrack.Tables.Counts.{Counted, create-Counted}
use cluster_glue_import.Replytrack.Nodes.{Nodetrack}
use cluster_glue_import.Replytrack.Replies.{Replytrack, replytrack_new, replytrack_gotreply}
use cluster_glue_import.Replytrack.Replies.Expected.{expects, after-expects, gotreply_last_iff}

module _ (g : Glib) where
  open g use {names, ids}

  copy_hashtables_lem :
      (m : Memory) (tin tout : NodeTables g)
      → copy_hashtables g m tin tout ≡ ((create_new_hashtables g tout).0, true)
  unfolding copy_hashtables create_new_hashtables copy_entries
  copy_hashtables_lem m tin tout = rw (names.entries-new, ids.entries-new) refl

  fresh-members : (t : NodeTables g) (k : Key) → members g (create_new_hashtables g t).0 k ≡ false
  unfolding create_new_hashtables
  fresh-members t (named n) = rw (names.lookup-entries names.new n, names.entries-new)
  fresh-members t (known u) = rw (ids.lookup-entries ids.new u, ids.entries-new)

  new-tables :
      (allocated : Bool) (raw : NodeTables g) (m : Memory) (membership : Nodetrack g)
      (callback : Option ℕ) (timeout_ms user_data timer : ℕ) {rl : Replytrack g}
      {membership' : Nodetrack g}
      → replytrack_new g allocated raw m membership callback timeout_ms user_data timer
        ≡ some (rl, membership')
      → rl.tables ≡ (create_new_hashtables g raw).0
  unfolding replytrack_new
  new-tables allocated raw m membership callback timeout_ms user_data timer h =
      ground (arith, copy_hashtables_lem m membership.nt raw)

  -- Whatever the membership, a new reply tracker expects a reply from nobody.
  pub new_expects_nobody :
      (allocated : Bool) (raw : NodeTables g) (m : Memory) (membership : Nodetrack g)
      (callback : Option ℕ) (timeout_ms user_data timer : ℕ) {rl : Replytrack g}
      {membership' : Nodetrack g}
      → replytrack_new g allocated raw m membership callback timeout_ms user_data timer
        ≡ some (rl, membership')
      → (k : Key) → expects g rl k ≡ false
  new_expects_nobody allocated raw m membership callback timeout_ms user_data timer h k =
      rw (new-tables allocated raw m membership callback timeout_ms user_data timer h)
        (fresh-members raw k)

  -- Where the memory held zeros, so that the counters start at 0, the first reply is taken for the
  -- last one, whoever sends it and however many nodes are up.
  pub new_first_reply_last :
      (allocated : Bool) (raw : NodeTables g) (m : Memory) (membership : Nodetrack g)
      (callback : Option ℕ) (timeout_ms user_data timer : ℕ) {rl : Replytrack g}
      {membership' : Nodetrack g}
      → replytrack_new g allocated raw m membership callback timeout_ms user_data timer
        ≡ some (rl, membership')
      → raw.namecount ≡ pos 0
      → raw.uuidcount ≡ pos 0
      → (n : String) (u : Uuid) → (replytrack_gotreply g rl n u).2 ≡ true
  new_first_reply_last allocated raw m membership callback timeout_ms user_data timer {rl} h z w n
        u =
      (gotreply_last_iff g rl n u counted).1 λ k. ground (
        arith,
        after-expects g rl n u k,
        new_expects_nobody allocated raw m membership callback timeout_ms user_data timer h k,
      )
    where
      counted : Counted g rl.tables
      counted =
          rw (new-tables allocated raw m membership callback timeout_ms user_data timer h)
            (create-Counted g raw z w)
