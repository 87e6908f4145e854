-- ===== src/Replytrack/Tables.antt =====
-- `struct node_tables` of lib/clplumbing/replytrack.c and the functions on it. A GLib table is the
-- interface `HashTable`; whether an allocation succeeds is an argument.
pub mod Keys
pub mod Counts
use cluster_glue_import.Prelude.{
  bytes_eq, bytes_eq_iff, ◌≡◌, Bool, true, false, ◌&&◌, List, [], ◌∷◌, ◌++◌, Option, none, some,
  String, str_eq, HashTable, if◌then◌else◌, ℤ, inc, dec, map,
}
use cluster_glue_import.Uuid.{Uuid, uuid_clear, cl_uuid_is_null}

-- `struct rt_node_info`.
pub record NodeInfo : Type 0 where
  pub nodename : String
  pub nodeid : Uuid

-- What `malloc` and `strdup` answer in one call.
pub record Memory : Type 0 where
  pub struct_ok : Bool
  pub string_ok : Bool

abbrev pub nulluuid : Uuid
nulluuid = uuid_clear

unfoldable pub rt_node_info_new : Memory → Option String → Uuid → Option NodeInfo
rt_node_info_new m none id = none
rt_node_info_new m (some name) id =
    if m.struct_ok
    then (if m.string_ok then some (record { nodename = name; nodeid = id }) else none)
    else none

-- The GLib that the program is linked with.
pub record Glib : Type 1 where
  pub names : HashTable String NodeInfo str_eq
  pub ids : HashTable Uuid NodeInfo bytes_eq

module _ (g : Glib) where
  open g use {names, ids}

  pub record NodeTables : Type 0 where
    pub uuidmap : ids.Table
    pub uuidcount : ℤ
    pub namemap : names.Table
    pub namecount : ℤ

  -- `g_hash_table_new` aborts rather than return NULL, so this succeeds. The counts are left as
  -- they were in memory.
  unfoldable pub create_new_hashtables : NodeTables → NodeTables × Bool
  create_new_hashtables t = (record t { namemap = names.new; uuidmap = ids.new }, true)

  unfoldable pub del_node_from_hashtables : NodeTables → String → Uuid → NodeTables × Bool
  del_node_from_hashtables t nodename id =
      if cl_uuid_is_null id
      then elim (names.lookup t.namemap nodename) [
        | none ↦ (t, true)
        | some entry ↦ (
          record t { namemap = names.remove t.namemap nodename; namecount = dec t.namecount },
          true,
        )
      ]
      else elim (ids.lookup t.uuidmap id) [
        | none ↦ (t, true)
        | some entry ↦
            (record t { uuidmap = ids.remove t.uuidmap id; uuidcount = dec t.uuidcount }, true)
      ]

  -- A node without a uuid goes into the name table.
  unfoldable pub add_name : Memory → NodeTables → String → Uuid → NodeTables × Bool
  add_name m t nodename id = elim (names.lookup t.namemap nodename) [
    | some entry ↦ (t, true)
    | none ↦ elim (rt_node_info_new m (some nodename) id) [
      | none ↦ (t, false)
      | some ninfo ↦ (
        record t {
          namemap = names.insert t.namemap ninfo.nodename ninfo;
          namecount = inc t.namecount;
        },
        true,
      )
    ]
  ]

  -- An entry of the same name with no uuid gives way to one with a uuid.
  unfoldable pub drop_name : NodeTables → String → NodeTables
  drop_name t nodename = elim (names.lookup t.namemap nodename) [
    | some entry ↦ (del_node_from_hashtables t nodename nulluuid).0
    | none ↦ t
  ]

  unfoldable pub insert_id : Memory → NodeTables → String → Uuid → NodeTables × Bool
  insert_id m t nodename id = elim (rt_node_info_new m (some nodename) id) [
    | none ↦ (t, false)
    | some idinfo ↦ (
      record t { uuidmap = ids.insert t.uuidmap idinfo.nodeid idinfo; uuidcount = inc t.uuidcount },
      true,
    )
  ]

  unfoldable pub add_node_to_hashtables : Memory → NodeTables → String → Uuid → NodeTables × Bool
  add_node_to_hashtables m t nodename id =
      if cl_uuid_is_null id then add_name m t nodename id else elim (ids.lookup t.uuidmap id) [
        | some entry ↦ (t, true)
        | none ↦ insert_id m (drop_name t nodename) nodename id
      ]

  -- `copy_hashtables_helper`, over the entries of a table in turn.
  unfoldable pub copy_entries : Memory → List NodeInfo → NodeTables → Bool → NodeTables × Bool
  copy_entries m [] t ret = (t, ret)
  copy_entries m (ni ∷ nis) t ret =
      let (t', added) = add_node_to_hashtables m t ni.nodename ni.nodeid in
      copy_entries m nis t' (ret && added)

  abbrev pub names_of : NodeTables → List NodeInfo
  names_of t = map (λ e. e.1) (names.entries t.namemap)

  abbrev pub ids_of : NodeTables → List NodeInfo
  ids_of t = map (λ e. e.1) (ids.entries t.uuidmap)

  -- Both loops read `tout`, as the source does.
  unfoldable pub copy_hashtables : Memory → NodeTables → NodeTables → NodeTables × Bool
  copy_hashtables m tin tout =
      let (fresh, created) = create_new_hashtables tout in
      let (t1, named) = copy_entries m (names_of fresh) fresh true in
      let (t2, done) = copy_entries m (ids_of t1) t1 named in
      if created then (if named then (t2, done) else (t1, false)) else (fresh, false)

  -- `nodetrack_ismember`, on the tables.
  unfoldable pub tracks : NodeTables → String → Uuid → Bool
  tracks t nodename id =
      if cl_uuid_is_null id
      then elim (names.lookup t.namemap nodename) [ none ↦ false | some e ↦ true ]
      else elim (ids.lookup t.uuidmap id) [ none ↦ false | some e ↦ true ]
