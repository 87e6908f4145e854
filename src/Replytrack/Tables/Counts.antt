-- ===== src/Replytrack/Tables/Counts.antt =====
-- The two counters against the tables that they count.
use cluster_glue_import.Prelude.{
  bytes_eq, bytes_eq_iff, ℕ, ◌≤◌, ◌≡◌, refl, Bool, true, false, List, [], ◌∷◌, none, some, String,
  str_eq, eq_iff, ◌⊎◌, arith, is_some, Option-cases, Bool-cases, inl, inr, length, ℤ, pos, negsuc,
  is_zero, ◌+ℤ◌, assoc,
}
use cluster_glue_import.Uuid.{Uuid, cl_uuid_is_null}
use cluster_glue_import.Replytrack.Tables.{
  Glib, Memory, NodeInfo, NodeTables, nulluuid, rt_node_info_new, del_node_from_hashtables,
  add_name, drop_name, insert_id, add_node_to_hashtables, create_new_hashtables,
}
use cluster_glue_import.Replytrack.Tables.Keys.{Key, named, known, members, drop-ids}

module _ (g : Glib) where
  open g use {names, ids}

  pub record Counted (t : NodeTables g) : Type 0 where
    pub names_counted : t.namecount ≡ pos (length (names.entries t.namemap))
    pub ids_counted : t.uuidcount ≡ pos (length (ids.entries t.uuidmap))

  pub create-Counted :
      (t : NodeTables g)
      → t.namecount ≡ pos 0
      → t.uuidcount ≡ pos 0
      → Counted (create_new_hashtables g t).0
  unfolding create_new_hashtables
  create-Counted t h k = record {
    names_counted = rw (names.entries-new) h;
    ids_counted = rw (ids.entries-new) k;
  }

  dec_name :
      (t : NodeTables g) (n : String) (e : NodeInfo)
      → names.lookup t.namemap n ≡ some e
      → Counted t
      → Counted
          (record t { namemap = names.remove t.namemap n; namecount = t.namecount +ℤ negsuc 0 })
  dec_name t n e h c = record {
    names_counted = ground (arith, names.length-remove t.namemap n e h, c.names_counted);
    ids_counted = c.ids_counted;
  }

  dec_id :
      (t : NodeTables g) (u : Uuid) (e : NodeInfo)
      → ids.lookup t.uuidmap u ≡ some e
      → Counted t
      → Counted (record t { uuidmap = ids.remove t.uuidmap u; uuidcount = t.uuidcount +ℤ negsuc 0 })
  dec_id t u e h c = record {
    names_counted = c.names_counted;
    ids_counted = ground (arith, ids.length-remove t.uuidmap u e h, c.ids_counted);
  }

  pub del-Counted :
      (t : NodeTables g) (n : String) (u : Uuid)
      → Counted t
      → Counted (del_node_from_hashtables g t n u).0
  unfolding del_node_from_hashtables
  del-Counted t n u c = elim (Bool-cases (cl_uuid_is_null u)) [
    | inl z ↦ elim (Option-cases (names.lookup t.namemap n)) [
      | inl e ↦ rw (z, e) c
      | inr (x, e) ↦ rw (z, e) (dec_name t n x e c)
    ]
    | inr z ↦ elim (Option-cases (ids.lookup t.uuidmap u)) [
      | inl e ↦ rw (z, e) c
      | inr (x, e) ↦ rw (z, e) (dec_id t u x e c)
    ]
  ]

  name-Counted :
      (m : Memory) (t : NodeTables g) (n : String) (u : Uuid)
      → Counted t
      → Counted (add_name g m t n u).0
  unfolding add_name rt_node_info_new
  name-Counted m t n u c = elim (Option-cases (names.lookup t.namemap n)) [
    | inl e ↦ record {
      names_counted = ground (
        arith,
        c.names_counted,
        e,
        names.length-insert t.namemap n (record { nodename = n; nodeid = u }) e,
      );
      ids_counted = ground (arith, c.ids_counted);
    }
    | inr (x, e) ↦ rw (e, add_name) c
  ]

  drop-Counted : (t : NodeTables g) (n : String) → Counted t → Counted (drop_name g t n)
  unfolding drop_name
  drop-Counted t n c = elim (Option-cases (names.lookup t.namemap n)) [
    | inl e ↦ rw (e, drop_name) c
    | inr (x, e) ↦ rw (e, drop_name) (del-Counted t n nulluuid c)
  ]

  insert-Counted :
      (m : Memory) (t : NodeTables g) (n : String) (u : Uuid)
      → ids.lookup t.uuidmap u ≡ none
      → Counted t
      → Counted (insert_id g m t n u).0
  unfolding insert_id rt_node_info_new
  insert-Counted m t n u e c = record {
    names_counted = ground (arith, c.names_counted);
    ids_counted = ground (
      arith,
      c.ids_counted,
      ids.length-insert t.uuidmap u (record { nodename = n; nodeid = u }) e,
    );
  }

  pub add-Counted :
      (m : Memory) (t : NodeTables g) (n : String) (u : Uuid)
      → Counted t
      → Counted (add_node_to_hashtables g m t n u).0
  unfolding add_node_to_hashtables
  add-Counted m t n u c = elim (Bool-cases (cl_uuid_is_null u)) [
    | inl z ↦ rw z (name-Counted m t n u c)
    | inr z ↦ elim (Option-cases (ids.lookup t.uuidmap u)) [
      | inl e ↦
          rw (z, e)
            (insert-Counted m (drop_name g t n) n u (rw (drop-ids g t n) e) (drop-Counted t n c))
      | inr (x, e) ↦ rw (z, e) c
    ]
  ]

  -- The number of replies that are outstanding.
  abbrev pub outstanding : NodeTables g → ℤ
  outstanding t = t.namecount +ℤ t.uuidcount

  sum_zero : (m n : ℕ) → is_zero (pos m +ℤ pos n) ≡ true → (m ≡ 0) × (n ≡ 0)
  sum_zero m n h = ground arith

  empty_assoc :
      {K : Type 0} (eq : K → K → Bool) (k : K) (es : List (K × NodeInfo))
      → length es ≡ 0
      → assoc eq k es ≡ none
  empty_assoc eq k [] h = refl
  empty_assoc eq k (e ∷ es) h = absurd (omega arith)

  -- Counters that add up to nothing mean that nobody is tracked.
  pub nobody :
      (t : NodeTables g)
      → Counted t
      → is_zero (outstanding t) ≡ true
      → (k : Key) → members g t k ≡ false
  nobody t c h (named n) =
      let both = sum_zero _ _ (rw (c.names_counted, c.ids_counted) at h) in
      rw (names.lookup-entries t.namemap n, empty_assoc str_eq n _ both.0)
  nobody t c h (known u) =
      let both = sum_zero _ _ (rw (c.names_counted, c.ids_counted) at h) in
      rw (ids.lookup-entries t.uuidmap u, empty_assoc bytes_eq u _ both.1)

  some_assoc :
      {K : Type 0} (eq : K → K → Bool) (k : K) (es : List (K × NodeInfo))
      → is_some (assoc eq k es) ≡ true
      → 1 ≤ length es
  some_assoc eq k [] h = cc
  some_assoc eq k (e ∷ es) h = omega arith

  -- A node that is tracked keeps them above zero.
  pub somebody :
      (t : NodeTables g) (k : Key)
      → Counted t
      → members g t k ≡ true
      → is_zero (outstanding t) ≡ false
  somebody t (named n) c h = ground (
    arith,
    c.names_counted,
    c.ids_counted,
    some_assoc str_eq n (names.entries t.namemap),
    names.lookup-entries t.namemap n,
  )
  somebody t (known u) c h = ground (
    arith,
    c.names_counted,
    c.ids_counted,
    some_assoc bytes_eq u (ids.entries t.uuidmap),
    ids.lookup-entries t.uuidmap u,
  )

  head_assoc :
      {K : Type 0} (eq : K → K → Bool) (eq_refl : (k : K) → eq k k ≡ true)
      (es : List (K × NodeInfo))
      → (length es ≡ 0) ⊎ ((k : K) × (is_some (assoc eq k es) ≡ true))
  head_assoc eq eq_refl [] = inl refl
  head_assoc eq eq_refl ((k, v) ∷ es) = inr (k, rw (eq_refl k))

  -- Counters above zero come with a node that is tracked.
  pub tracked :
      (t : NodeTables g)
      → Counted t
      → (is_zero (outstanding t) ≡ true) ⊎ ((k : Key) × (members g t k ≡ true))
  tracked t c = elim (head_assoc str_eq (λ k. (eq_iff k k).1 refl) (names.entries t.namemap)) [
    | inr (n, h) ↦ inr (named n, rw (names.lookup-entries t.namemap n) h)
    | inl no_names ↦
        elim (head_assoc bytes_eq (λ k. (bytes_eq_iff k k).1 refl) (ids.entries t.uuidmap)) [
          | inr (u, h) ↦ inr (known u, rw (ids.lookup-entries t.uuidmap u) h)
          | inl no_ids ↦ inl (rw (c.names_counted, c.ids_counted, no_names, no_ids) refl)
        ]
  ]
