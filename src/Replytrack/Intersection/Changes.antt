-- ===== src/Replytrack/Intersection/Changes.antt =====
-- What becomes of the intersection when a node of one of its tables comes up or goes down.
use cluster_glue_import.Prelude.{
  refl, append-nil, ℕ, zero, suc, ◌≡◌, true, false, List, [], ◌∷◌, some, String, arith, get_elem?,
  set,
}
use cluster_glue_import.Uuid.{Uuid}
use cluster_glue_import.Replytrack.Tables.{Glib, Memory, add_node_to_hashtables}
use cluster_glue_import.Replytrack.Tables.Keys.{
  Key, key_of, members, tracks-members, add-members, del-members, without, without_absent, enough,
  key_eq_refl,
}
use cluster_glue_import.Replytrack.Nodes.{
  Nodetrack, nodetrack_nodeup, nodetrack_nodedown, nodetrack_ismember,
}
use cluster_glue_import.Replytrack.Intersection.{
  Group, none_has, intersection_callback, table_nodeup, table_nodedown,
}

module _ (g : Glib) where
  up-ismember :
      (mbr : Nodetrack g) (n : String) (u : Uuid)
      → nodetrack_ismember g (nodetrack_nodeup g enough mbr n u).0 n u ≡ true
  unfolding nodetrack_ismember nodetrack_nodeup
  up-ismember mbr n u = ground (
    arith,
    tracks-members g (add_node_to_hashtables g enough mbr.nt n u).0 n u,
    add-members g mbr.nt n u (key_of n u),
    key_eq_refl (key_of n u),
  )

  none_has-set :
      (ts : List (Nodetrack g)) (k : ℕ) (old mbr : Nodetrack g) (n : String) (u : Uuid)
      → get_elem? ts k ≡ some old
      → nodetrack_ismember g mbr n u ≡ true
      → none_has g (set ts k mbr) n u ≡ false
  unfolding none_has
  none_has-set [] k old mbr n u e h = cc
  none_has-set (t ∷ ts) zero old mbr n u e h = ground arith
  none_has-set (t ∷ ts) (suc k) old mbr n u e h = ground (arith, none_has-set ts k old mbr n u e h)

  -- With memory at hand, a node that comes up in a table of the group does not get into the
  -- intersection, also when it is in all the tables, and no callback runs but those of this table.
  pub nodeup_intersection_kept :
      (it : Group g) (k : ℕ) (mbr : Nodetrack g) (n : String) (u : Uuid)
      → get_elem? it.tables k ≡ some mbr
      → ((table_nodeup g enough it k mbr n u).0.intersection ≡ it.intersection)
        × ((table_nodeup g enough it k mbr n u).1 ≡ (nodetrack_nodeup g enough mbr n u).1)
  unfolding table_nodeup intersection_callback
  nodeup_intersection_kept it k mbr n u e =
      let none : none_has g (set it.tables k (nodetrack_nodeup g enough mbr n u).0) n u ≡ false =
        none_has-set it.tables k mbr (nodetrack_nodeup g enough mbr n u).0 n u e
          (up-ismember mbr n u) in
      (rw none refl, rw none (append-nil (nodetrack_nodeup g enough mbr n u).1))

  -- A node that goes down in a table is taken out of the intersection, and no other node.
  pub nodedown-members :
      (m : Memory) (it : Group g) (k : ℕ) (mbr : Nodetrack g) (n : String) (u : Uuid) (j : Key)
      → members g (table_nodedown g m it k mbr n u).0.intersection.nt j
        ≡ without (key_of n u) (members g it.intersection.nt) j
  unfolding table_nodedown intersection_callback nodetrack_nodedown nodetrack_ismember
  nodedown-members m it k mbr n u j = ground (
    arith,
    tracks-members g it.intersection.nt n u,
    del-members g it.intersection.nt n u j,
    without_absent (members g it.intersection.nt) (key_of n u) j,
  )
