-- ===== src/Replytrack/Tables/Keys.antt =====
-- The tables seen as a set of keys: a node without a uuid is known by its name, any other by its
-- uuid.
use cluster_glue_import.Prelude.{
  bytes_eq, bytes_eq_iff, ◌≡◌, refl, sym, ap, Bool, true, false, ◌&&◌, not, String, str_eq, eq_iff,
  arith, if◌then◌else◌, is_some, Bool-cases, inl, inr,
}
use cluster_glue_import.Uuid.{Uuid, cl_uuid_is_null}
use cluster_glue_import.Uuid.Laws.{cl_uuid_is_null-clear}
use cluster_glue_import.Replytrack.Tables.{
  Glib, Memory, NodeTables, nulluuid, rt_node_info_new, del_node_from_hashtables, add_name,
  drop_name, insert_id, add_node_to_hashtables, tracks,
}

pub data Key : Type 0 where
  named : String → Key
  known : Uuid → Key

abbrev pub key_of : String → Uuid → Key
key_of n u = if cl_uuid_is_null u then named n else known u

abbrev pub key_eq : Key → Key → Bool
key_eq (named n) (named m) = str_eq n m
key_eq (named n) (known v) = false
key_eq (known u) (named m) = false
key_eq (known u) (known v) = bytes_eq u v

-- A set of keys, what removing one leaves and what adding a node makes of it.
abbrev pub Members : Type 0
Members = Key → Bool

abbrev pub without : Key → Members → Members
without j s k = if key_eq j k then false else s k

abbrev pub with_node : String → Uuid → Members → Members
with_node n u s k =
    if key_eq (key_of n u) k
    then true
    else if not (cl_uuid_is_null u) && not (s (known u)) && key_eq (named n) k
    then false
    else s k

-- Every allocation succeeds.
abbrev pub enough : Memory
enough = record { struct_ok = true; string_ok = true }

module _ (g : Glib) where
  open g use {names, ids}

  abbrev pub members : NodeTables g → Members
  members t (named n) = is_some (names.lookup t.namemap n)
  members t (known u) = is_some (ids.lookup t.uuidmap u)

  pub tracks-members :
      (t : NodeTables g) (n : String) (u : Uuid) → tracks g t n u ≡ members t (key_of n u)
  unfolding tracks
  tracks-members t n u = ground arith

  -- Deleting a node removes its key and no other.
  pub del-members :
      (t : NodeTables g) (n : String) (u : Uuid) (k : Key)
      → members (del_node_from_hashtables g t n u).0 k ≡ without (key_of n u) (members t) k
  unfolding del_node_from_hashtables
  del-members t n u (named m) = ground (arith, eq_iff n m, names.lookup-remove t.namemap n m)
  del-members t n u (known v) = ground (arith, bytes_eq_iff u v, ids.lookup-remove t.uuidmap u v)

  -- Dropping the entry of a name removes that name and no other key.
  drop-members :
      (t : NodeTables g) (n : String) (k : Key)
      → members (drop_name g t n) k ≡ without (named n) (members t) k
  unfolding drop_name
  drop-members t n (named m) =
      ground (arith, cl_uuid_is_null-clear, eq_iff n m, del-members t n nulluuid (named m))
  drop-members t n (known v) =
      ground (arith, cl_uuid_is_null-clear, del-members t n nulluuid (known v))

  pub drop-ids : (t : NodeTables g) (n : String) → (drop_name g t n).uuidmap ≡ t.uuidmap
  unfolding drop_name del_node_from_hashtables
  drop-ids t n = ground (arith, cl_uuid_is_null-clear)

  insert-members :
      (t : NodeTables g) (n : String) (u : Uuid) (k : Key)
      → members (insert_id g enough t n u).0 k ≡ (if key_eq (known u) k then true else members t k)
  unfolding insert_id rt_node_info_new
  insert-members t n u (named m) = refl
  insert-members t n u (known v) =
      ground (arith, ids.lookup-insert t.uuidmap u v (record { nodename = n; nodeid = u }))

  name-members :
      (t : NodeTables g) (n : String) (u : Uuid) (k : Key)
      → members (add_name g enough t n u).0 k ≡ (if key_eq (named n) k then true else members t k)
  unfolding add_name rt_node_info_new
  name-members t n u (known v) = ground arith
  name-members t n u (named m) =
      ground
        (arith, eq_iff n m, names.lookup-insert t.namemap n m (record { nodename = n; nodeid = u }))

  -- With memory at hand, adding a node adds its key; of the other keys only the name of a node that
  -- now comes with a new uuid goes.
  pub add-members :
      (t : NodeTables g) (n : String) (u : Uuid) (k : Key)
      → members (add_node_to_hashtables g enough t n u).0 k ≡ with_node n u (members t) k
  unfolding add_node_to_hashtables
  add-members t n u (named m) = ground (
    arith,
    name-members t n u (named m),
    insert-members (drop_name g t n) n u (named m),
    drop-members t n (named m),
  )
  add-members t n u (known v) = ground (
    arith,
    bytes_eq_iff u v,
    name-members t n u (known v),
    insert-members (drop_name g t n) n u (known v),
    drop-members t n (known v),
  )

pub key_eq_refl : (k : Key) → key_eq k k ≡ true
key_eq_refl (named n) = (eq_iff n n).1 refl
key_eq_refl (known u) = (bytes_eq_iff u u).1 refl

pub key_eq→eq : (j k : Key) → key_eq j k ≡ true → j ≡ k
key_eq→eq (named n) (named m) h = ap named ((eq_iff n m).0 h)
key_eq→eq (named n) (known v) h = cc
key_eq→eq (known u) (named m) h = cc
key_eq→eq (known u) (known v) h = ap known ((bytes_eq_iff u v).0 h)

-- Taking out a key that is not in changes nothing.
pub without_absent : (s : Members) (j k : Key) → s j ≡ false → without j s k ≡ s k
without_absent s j k h = elim (Bool-cases (key_eq j k)) [
  | inl e ↦ rw (← key_eq→eq j k e, key_eq_refl j) (sym h)
  | inr e ↦ rw e
]
