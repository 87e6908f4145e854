-- ===== src/Replytrack/Nodes.antt =====
-- `nodetrack_t` of lib/clplumbing/replytrack.c: the nodes that are up, and who is told of a change.
pub mod Membership
use cluster_glue_import.Prelude.{
  ℕ, zero, suc, ◌+◌, Bool, true, false, List, [], ◌∷◌, ◌++◌, Option, none, some, String, ℤ, pos,
  inc, dec, if◌then◌else◌, length, HashTable,
}
use cluster_glue_import.Uuid.{Uuid}
use cluster_glue_import.Replytrack.Tables.{
  Glib, Memory, NodeInfo, NodeTables, create_new_hashtables, del_node_from_hashtables,
  add_node_to_hashtables, tracks, names_of, ids_of,
}

-- `nodetrack_change_t`.
pub data Change : Type 0 where
  up down : Change

-- One call of a callback: the function, what it is told and the data registered with it.
pub record Call : Type 0 where
  pub fn : ℕ
  pub node : String
  pub uuid : Uuid
  pub reason : Change
  pub arg : ℕ

-- The call that a callback pointer makes, and none where it is NULL.
abbrev pub calls_of : Option ℕ → String → Uuid → Change → ℕ → List Call
calls_of none node uuid reason arg = []
calls_of (some f) node uuid reason arg =
    record { fn = f; node = node; uuid = uuid; reason = reason; arg = arg } ∷ []

module _ (g : Glib) where
  pub record Nodetrack : Type 0 where
    pub nt : NodeTables g
    pub refcount : ℤ
    pub callback : Option ℕ
    pub user_data : ℕ
    pub extra_callback : Option ℕ
    pub ext_data : ℕ

  -- The memory that `malloc` hands out is the last argument but for the allocation itself.
  unfoldable pub nodetrack_new : Bool → NodeTables g → Option ℕ → ℕ → Option Nodetrack
  nodetrack_new allocated raw callback user_data =
      let (tables, created) = create_new_hashtables g raw in
      if allocated
      then some (record {
        nt = tables;
        refcount = pos 0;
        callback = callback;
        user_data = user_data;
        extra_callback = none;
        ext_data = 0;
      })
      else none

  -- The result, the callbacks in the order in which they are called, and the return value.
  unfoldable pub nodetrack_nodeup :
      Memory → Nodetrack → String → Uuid → Nodetrack × List Call × Bool
  nodetrack_nodeup m mbr node uuid =
      let (nt, ret) = add_node_to_hashtables g m mbr.nt node uuid in
      (
        record mbr { nt = nt },
        (if ret then calls_of mbr.callback node uuid up mbr.user_data else [])
            ++ calls_of mbr.extra_callback node uuid up mbr.ext_data,
        ret,
      )

  unfoldable pub nodetrack_nodedown : Nodetrack → String → Uuid → Nodetrack × List Call × Bool
  nodetrack_nodedown mbr node uuid =
      let (nt, ret) = del_node_from_hashtables g mbr.nt node uuid in
      (
        record mbr { nt = nt },
        calls_of mbr.callback node uuid down mbr.user_data
            ++ calls_of mbr.extra_callback node uuid down mbr.ext_data,
        ret,
      )

  unfoldable pub nodetrack_ismember : Nodetrack → String → Uuid → Bool
  nodetrack_ismember mbr name u = tracks g mbr.nt name u

  -- `nodetrack_iterate`: the nodes in the order of the two loops, and the count returned.
  unfoldable pub nodetrack_iterate : Nodetrack → List NodeInfo × ℕ
  nodetrack_iterate rl =
      let visited = names_of g rl.nt ++ ids_of g rl.nt in (visited, length visited)
