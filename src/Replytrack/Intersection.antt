-- ===== src/Replytrack/Intersection.antt =====
-- `nodetrack_intersection_t` of lib/clplumbing/replytrack.c: the nodes that several memberships
-- share, with the callback that keeps them up to date.
pub mod Changes
use cluster_glue_import.Prelude.{
  ℕ, zero, suc, ◌+◌, Bool, true, false, ◌&&◌, not, List, [], ◌∷◌, ◌++◌, map, Option, none, some,
  String, ℤ, inc, if◌then◌else◌, get_elem?, set,
}
use cluster_glue_import.Uuid.{Uuid}
use cluster_glue_import.Replytrack.Tables.{Glib, Memory, NodeInfo, NodeTables, names_of, ids_of}
use cluster_glue_import.Replytrack.Nodes.{
  Nodetrack, Call, Change, up, down, nodetrack_new, nodetrack_nodeup, nodetrack_nodedown,
  nodetrack_ismember,
}

module _ (g : Glib) where
  -- The memberships stand in a list; `ntables` is its length.
  pub record Group : Type 0 where
    pub tables : List (Nodetrack g)
    pub intersection : Nodetrack g

  -- The loop of `intersection_callback` over the tables: `allfound` becomes FALSE at the first that
  -- has the node.
  unfoldable pub none_has : List (Nodetrack g) → String → Uuid → Bool
  none_has [] node u = true
  none_has (t ∷ ts) node u =
      let rest = none_has ts node u in if nodetrack_ismember g t node u then false else rest

  -- The group, and the callbacks of the intersection.
  unfoldable pub intersection_callback : Memory → Group → String → Uuid → Change → Group × List Call
  intersection_callback m it node u down =
      if nodetrack_ismember g it.intersection node u
      then (let (inter, calls, _) = nodetrack_nodedown g it.intersection node u in
          (record it { intersection = inter }, calls))
      else (it, [])
  intersection_callback m it node u up =
      if none_has it.tables node u
      then (let (inter, calls, _) = nodetrack_nodeup g m it.intersection node u in
          (record it { intersection = inter }, calls))
      else (it, [])

  -- `nodetrack_nodeup` and `nodetrack_nodedown` on table `k` of a group, whose extra callback is
  -- `intersection_callback`: the group, and the callbacks of the table and of the intersection. On
  -- the way down the callbacks run before the node is deleted.
  unfoldable pub table_nodeup : Memory → Group → ℕ → Nodetrack g → String → Uuid → Group × List Call
  table_nodeup m it k mbr node u =
      let (mbr', calls, _) = nodetrack_nodeup g m mbr node u in
      let (it', more) =
        intersection_callback m (record it { tables = set it.tables k mbr' }) node u up in
      (it', calls ++ more)

  unfoldable pub table_nodedown :
      Memory → Group → ℕ → Nodetrack g → String → Uuid → Group × List Call
  table_nodedown m it k mbr node u =
      let (told, more) = intersection_callback m it node u down in
      let (mbr', calls, _) = nodetrack_nodedown g mbr node u in
      (record told { tables = set told.tables k mbr' }, calls ++ more)

  -- The loop of `intersection_init_iterator` over the tables but the first.
  unfoldable pub all_have : List (Nodetrack g) → String → Uuid → Bool
  all_have [] node u = true
  all_have (t ∷ ts) node u =
      let rest = all_have ts node u in if nodetrack_ismember g t node u then rest else false

  unfoldable pub intersection_init_iterator :
      Memory → List (Nodetrack g) → Nodetrack g → NodeInfo → Nodetrack g
  intersection_init_iterator m others inter ni =
      if all_have others ni.nodename ni.nodeid
      then (nodetrack_nodeup g m inter ni.nodename ni.nodeid).0
      else inter

  unfoldable pub init_loop : Memory → List (Nodetrack g) → Nodetrack g → List NodeInfo → Nodetrack g
  init_loop m others inter [] = inter
  init_loop m others inter (ni ∷ nis) =
      init_loop m others (intersection_init_iterator m others inter ni) nis

  -- The number of the function `intersection_callback`, and of the group as its data.
  abbrev pub enlist : ℕ → ℕ → Nodetrack g → Nodetrack g
  enlist f data_of mbr = record mbr {
    refcount = inc mbr.refcount;
    ext_data = data_of;
    extra_callback = some f;
  }

  -- `none` also where there is no table, whose first one the source reads.
  unfoldable pub nodetrack_intersection_new :
      Memory → Bool → NodeTables g → ℕ → ℕ → List (Nodetrack g) → Option ℕ → ℕ → Option Group
  nodetrack_intersection_new m allocated raw f self [] callback user_data = none
  nodetrack_intersection_new m allocated raw f self (t ∷ ts) callback user_data =
      elim (nodetrack_new g allocated raw callback user_data) [
        | none ↦ none
        | some inter ↦ some (record {
          tables = map (enlist f self) (t ∷ ts);
          intersection =
              init_loop m (map (enlist f self) ts) inter (names_of g t.nt ++ ids_of g t.nt);
        })
      ]

  abbrev pub leave : Nodetrack g → Nodetrack g
  leave mbr = record mbr { refcount = inc mbr.refcount }

  -- `nodetrack_intersection_del`: the tables that outlive it. It raises the counts once more.
  unfoldable pub nodetrack_intersection_del : Group → List (Nodetrack g)
  nodetrack_intersection_del p = map leave p.tables
