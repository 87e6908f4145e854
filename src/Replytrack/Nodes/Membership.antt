-- ===== src/Replytrack/Nodes/Membership.antt =====
-- A membership after a history of nodes that came up and went down.
use cluster_glue_import.Prelude.{
  ◌≡◌, refl, Bool, true, false, List, [], ◌∷◌, String, arith, if◌then◌else◌,
}
use cluster_glue_import.Uuid.{Uuid, cl_uuid_is_null}
use cluster_glue_import.Replytrack.Tables.{Glib}
use cluster_glue_import.Replytrack.Tables.Counts.{Counted, add-Counted, del-Counted}
use cluster_glue_import.Replytrack.Tables.Keys.{
  known, key_of, key_eq, members, tracks-members, add-members, del-members, enough,
}
use cluster_glue_import.Replytrack.Nodes.{
  Nodetrack, Change, up, down, nodetrack_nodeup, nodetrack_nodedown, nodetrack_ismember,
}

-- A node's name and uuid, and what happened to it.
pub record News : Type 0 where
  pub node : String
  pub uuid : Uuid
  pub change : Change

abbrev pub is_up : Change → Bool
is_up up = true
is_up down = false

-- The last news of a uuid, or what held before.
abbrev pub latest : Uuid → List News → Bool → Bool
latest u [] before = before
latest u (e ∷ es) before =
    latest u es (if key_eq (key_of e.node e.uuid) (known u) then is_up e.change else before)

module _ (g : Glib) where
  -- With memory at hand.
  pub hear : Nodetrack g → News → Nodetrack g
  hear mbr e = elim e.change [
    | up ↦ (nodetrack_nodeup g enough mbr e.node e.uuid).0
    | down ↦ (nodetrack_nodedown g mbr e.node e.uuid).0
  ]

  pub hear_all : Nodetrack g → List News → Nodetrack g
  hear_all mbr [] = mbr
  hear_all mbr (e ∷ es) = hear_all (hear mbr e) es

  hear-members :
      (mbr : Nodetrack g) (e : News) (u : Uuid)
      → members g (hear mbr e).nt (known u) ≡ (
          if key_eq (key_of e.node e.uuid) (known u)
          then is_up e.change
          else members g mbr.nt (known u))
  unfolding hear nodetrack_nodeup nodetrack_nodedown
  hear-members mbr e u = ground (
    arith,
    add-members g mbr.nt e.node e.uuid (known u),
    del-members g mbr.nt e.node e.uuid (known u),
  )

  hear_all-members :
      (mbr : Nodetrack g) (es : List News) (u : Uuid)
      → members g (hear_all mbr es).nt (known u) ≡ latest u es (members g mbr.nt (known u))
  unfolding hear_all
  hear_all-members mbr [] u = refl
  hear_all-members mbr (e ∷ es) u = rw (hear_all-members (hear mbr e) es u, hear-members mbr e u)

  -- With memory at hand, a node with a uuid is a member exactly if the last news of that uuid was that it came up, or,
  -- without any news of it, if it was one before. Its name plays no part.
  pub ismember-latest :
      (mbr : Nodetrack g) (es : List News) (name : String) (u : Uuid)
      → cl_uuid_is_null u ≡ false
      → nodetrack_ismember g (hear_all mbr es) name u
        ≡ latest u es (nodetrack_ismember g mbr name u)
  unfolding nodetrack_ismember
  ismember-latest mbr es name u h = ground (
    arith,
    tracks-members g (hear_all mbr es).nt name u,
    tracks-members g mbr.nt name u,
    hear_all-members mbr es u,
  )

  hear-Counted : (mbr : Nodetrack g) (e : News) → Counted g mbr.nt → Counted g (hear mbr e).nt
  unfolding hear nodetrack_nodeup nodetrack_nodedown
  hear-Counted mbr e c =
      ground
        (arith, add-Counted g enough mbr.nt e.node e.uuid c, del-Counted g mbr.nt e.node e.uuid c)

  -- With memory at hand, counters that agree with the tables at the start agree after any history.
  pub hear_all-Counted :
      (mbr : Nodetrack g) (es : List News) → Counted g mbr.nt → Counted g (hear_all mbr es).nt
  unfolding hear_all
  hear_all-Counted mbr [] c = c
  hear_all-Counted mbr (e ∷ es) c = hear_all-Counted (hear mbr e) es (hear-Counted mbr e c)
