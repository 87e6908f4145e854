-- ===== src/Replytrack/Replies.antt =====
-- `replytrack_t` of lib/clplumbing/replytrack.c: the replies that are still expected.
pub mod Expected
pub mod Timer
pub mod Start
use cluster_glue_import.Prelude.{
  ℕ, zero, suc, ◌+◌, ◌≡◌, Bool, true, false, ◌&&◌, not, List, [], ◌∷◌, ◌++◌, Option, none, some,
  String, ℤ, pos, inc, dec, is_zero, ◌+ℤ◌, if◌then◌else◌, length, ltb, ◌==◌, is_some,
}
use cluster_glue_import.Uuid.{Uuid}
use cluster_glue_import.Replytrack.Tables.{
  Glib, Memory, NodeInfo, NodeTables, copy_hashtables, del_node_from_hashtables, names_of, ids_of,
}
use cluster_glue_import.Replytrack.Nodes.{Nodetrack}

-- `replytrack_completion_type_t`.
pub data Completion : Type 0 where
  all_received timed_out : Completion

-- `g_source_remove`: the timer with this id is taken out of the main loop.
abbrev pub source_remove : ℕ → List ℕ → List ℕ
source_remove id [] = []
source_remove id (s ∷ ss) = if s == id then ss else s ∷ source_remove id ss

module _ (g : Glib) where
  -- `timerid` is 0 where no timer runs; `sources` are the timers in GLib's main loop that call
  -- `replytrack_timeout_helper` on the tracker. The pointer to the membership is the argument of the
  -- operations that change it.
  pub record Replytrack : Type 0 where
    pub callback : Option ℕ
    pub user_data : ℕ
    pub timerid : ℕ
    pub sources : List ℕ
    pub tables : NodeTables g
    pub expectingmore : Bool

  -- The call of a completion callback, and none where it is NULL.
  abbrev pub completes : Option ℕ → Completion → List Completion
  completes none c = []
  completes (some f) c = c ∷ []

  -- `raw` is what `malloc` leaves in the structure, and `timer` the id that `Gmain_timeout_add`
  -- would give.
  unfoldable pub replytrack_new :
      Bool
      → NodeTables g
      → Memory
      → Nodetrack g
      → Option ℕ
      → ℕ
      → ℕ
      → ℕ
      → Option (Replytrack × Nodetrack g)
  replytrack_new allocated raw m membership callback timeout_ms user_data timer =
      let (tables, copied) = copy_hashtables g m membership.nt raw in
      if allocated && copied
      then some (
        record {
          callback = callback;
          user_data = user_data;
          timerid = if not (timeout_ms == 0) && is_some callback then timer else 0;
          sources = if not (timeout_ms == 0) && is_some callback then timer ∷ [] else [];
          tables = tables;
          expectingmore = true;
        },
        record membership { refcount = inc membership.refcount },
      )
      else none

  -- The last part is the value returned, which is whether the timer stays.
  unfoldable pub replytrack_timeout_helper : Replytrack → Replytrack × List Completion × Bool
  replytrack_timeout_helper rl =
      (record rl { expectingmore = false; timerid = 0 }, completes rl.callback timed_out, false)

  abbrev pub outstanding_count : Replytrack → ℤ
  outstanding_count rl = rl.tables.namecount +ℤ rl.tables.uuidcount

  -- `replytrack_outstanding_count`.
  unfoldable pub replytrack_outstanding_count : Replytrack → ℤ
  replytrack_outstanding_count rl = outstanding_count rl

  -- The last part of `replytrack_gotreply`, on the tables without the replier. The result, the
  -- callbacks, and the value returned.
  unfoldable pub finish : Replytrack → Bool → Replytrack × List Completion × Bool
  finish rl lastone =
      if lastone
      then (
        record rl {
          expectingmore = false;
          timerid = if ltb 0 rl.timerid then 0 else rl.timerid;
          sources = if ltb 0 rl.timerid then source_remove rl.timerid rl.sources else rl.sources;
        },
        completes rl.callback all_received,
        true,
      )
      else (rl, [], false)

  unfoldable pub replytrack_gotreply :
      Replytrack → String → Uuid → Replytrack × List Completion × Bool
  unfolding finish
  replytrack_gotreply rl node uuid =
      let tables = (del_node_from_hashtables g rl.tables node uuid).0 in
      let rl' = record rl { tables = tables } in finish rl' (is_zero (outstanding_count rl'))

  -- `replytrack_del`: what becomes of the membership, the timers removed, and whether the warning
  -- about replies that are still expected is logged.
  unfoldable pub replytrack_del : Replytrack → Nodetrack g → Nodetrack g × List ℕ × Bool
  replytrack_del rl membership = (
    record membership { refcount = dec membership.refcount },
    if ltb 0 rl.timerid then rl.timerid ∷ [] else [],
    rl.expectingmore && ltb 0 rl.timerid,
  )

  -- `replytrack_outstanding_iterate`: the nodes in the order of the two loops, and the count.
  unfoldable pub replytrack_outstanding_iterate : Replytrack → List NodeInfo × ℕ
  replytrack_outstanding_iterate rl =
      let visited = names_of g rl.tables ++ ids_of g rl.tables in (visited, length visited)
