-- ===== src/Replytrack/Tests.antt =====
-- Small clusters over association lists: tests, and the theorems at concrete inputs.
use cluster_glue_import.Prelude.{
  bytes_eq, bytes_eq_iff, ◌≡◌, refl, true, false, List, [], ◌∷◌, none, some, str_eq, eq_iff, pos,
  assoc_table, replicate,
}
use cluster_glue_import.Uuid.{Uuid, cl_uuid_is_null}
use cluster_glue_import.Replytrack.Tables.{
  Glib, copy_hashtables, copy_entries, NodeTables, create_new_hashtables, del_node_from_hashtables,
  add_node_to_hashtables,
}
use cluster_glue_import.Replytrack.Tables.Keys.{
  known, key_of, members, without, with_node, enough, del-members, add-members,
}
use cluster_glue_import.Replytrack.Tables.Counts.{Counted}
use cluster_glue_import.Replytrack.Nodes.{nodetrack_nodeup, Nodetrack, up, down, nodetrack_ismember}
use cluster_glue_import.Replytrack.Nodes.Membership.{
  News, latest, hear_all, ismember-latest, hear_all-Counted,
}
use cluster_glue_import.Replytrack.Replies.{
  Replytrack, timed_out, replytrack_new, replytrack_gotreply, replytrack_timeout_helper,
}
use cluster_glue_import.Replytrack.Replies.Expected.{expects}
use cluster_glue_import.Replytrack.Replies.Start.{new_expects_nobody, new_first_reply_last}
use cluster_glue_import.Replytrack.Replies.Timer.{
  Run, start, next, Step, expires, TimeoutFirst, Run-TimeoutFirst, dispatched, one_left,
}
use cluster_glue_import.Replytrack.Intersection.{Group, table_nodeup, table_nodedown}
use cluster_glue_import.Replytrack.Intersection.Changes.{nodeup_intersection_kept, nodedown-members}

abbrev glib : Glib
glib = record { names = assoc_table str_eq eq_iff; ids = assoc_table bytes_eq bytes_eq_iff }

abbrev u1 : Uuid
u1 = 1 ∷ replicate 15 0

abbrev u2 : Uuid
u2 = 2 ∷ replicate 15 0

abbrev zeros : NodeTables glib
zeros = record { uuidmap = ([], tt); uuidcount = pos 0; namemap = ([], tt); namecount = pos 0 }

zeros-Counted : Counted glib zeros
zeros-Counted = record { names_counted = refl; ids_counted = refl }

abbrev nobody_up : Nodetrack glib
nobody_up = record {
  nt = zeros;
  refcount = pos 0;
  callback = none;
  user_data = 0;
  extra_callback = none;
  ext_data = 0;
}

abbrev history : List News
history =
    record { node = "alice"; uuid = u1; change = up }
    ∷ record { node = "bob"; uuid = u2; change = up }
    ∷ record { node = "bob"; uuid = u2; change = down }
    ∷ []

abbrev one_up : Nodetrack glib
one_up = record nobody_up {
  nt = record zeros {
    uuidmap = ((u1, record { nodename = "alice"; nodeid = u1 }) ∷ [], (refl, tt));
    uuidcount = pos 1;
  };
}

del-members_example :
    members glib (del_node_from_hashtables glib one_up.nt "alice" u1).0 (known u1)
    ≡ without (key_of "alice" u1) (members glib one_up.nt) (known u1)
del-members_example = del-members glib one_up.nt "alice" u1 (known u1)

add-members_example :
    members glib (add_node_to_hashtables glib enough one_up.nt "bob" u2).0 (known u1)
    ≡ with_node "bob" u2 (members glib one_up.nt) (known u1)
add-members_example = add-members glib one_up.nt "bob" u2 (known u1)

not_null : cl_uuid_is_null u1 ≡ false
unfolding cl_uuid_is_null
not_null = refl

ismember-latest_example :
    nodetrack_ismember glib (hear_all glib nobody_up history) "alice" u1
    ≡ latest u1 history (nodetrack_ismember glib nobody_up "alice" u1)
ismember-latest_example = ismember-latest glib nobody_up history "alice" u1 not_null

hear_all-Counted_example : Counted glib (hear_all glib nobody_up history).nt
hear_all-Counted_example = hear_all-Counted glib nobody_up history zeros-Counted

-- A tracker that waits for the members of `one_up`.
abbrev waiting : Replytrack glib
waiting = record {
  callback = some 1;
  user_data = 0;
  timerid = 7;
  sources = 7 ∷ [];
  tables = one_up.nt;
  expectingmore = true;
}

expired :
    Run glib waiting (timed_out ∷ []) (dispatched glib 7 (replytrack_timeout_helper glib waiting))
unfolding replytrack_timeout_helper
expired = next start (let s : Step glib waiting _ _ = expires 7 [] [] refl in s) refl

Run-TimeoutFirst_example : TimeoutFirst (timed_out ∷ [])
Run-TimeoutFirst_example = Run-TimeoutFirst glib (one_left refl refl) expired

new_tracker :
    replytrack_new glib true zeros enough one_up (some 1) 500 0 7
    ≡ some (
      record {
        callback = some 1;
        user_data = 0;
        timerid = 7;
        sources = 7 ∷ [];
        tables = zeros;
        expectingmore = true;
      },
      record one_up { refcount = pos 1 },
    )
unfolding replytrack_new copy_hashtables copy_entries create_new_hashtables
new_tracker = refl

new_expects_nobody_example : expects glib (record waiting { tables = zeros }) (known u1) ≡ false
new_expects_nobody_example =
    new_expects_nobody glib true zeros enough one_up (some 1) 500 0 7 new_tracker (known u1)

new_first_reply_last_example :
    (replytrack_gotreply glib (record waiting { tables = zeros }) "carol" u2).2 ≡ true
new_first_reply_last_example =
    new_first_reply_last glib true zeros enough one_up (some 1) 500 0 7 new_tracker refl refl
      "carol" u2

-- Two tables, of which the second has `alice` already, and an empty intersection.
abbrev group : Group glib
group = record { tables = nobody_up ∷ one_up ∷ []; intersection = nobody_up }

nodeup_intersection_kept_example :
    ((table_nodeup glib enough group 0 nobody_up "alice" u1).0.intersection ≡ nobody_up)
    × ((table_nodeup glib enough group 0 nobody_up "alice" u1).1
        ≡ (nodetrack_nodeup glib enough nobody_up "alice" u1).1)
nodeup_intersection_kept_example = nodeup_intersection_kept glib group 0 nobody_up "alice" u1 refl

abbrev shared : Group glib
shared = record { tables = one_up ∷ one_up ∷ []; intersection = one_up }

nodedown-members_example :
    members glib
      (table_nodedown glib enough shared 1 one_up "alice" u1).0.intersection.nt
      (known u1)
    ≡ without (key_of "alice" u1) (members glib one_up.nt) (known u1)
nodedown-members_example = nodedown-members glib enough shared 1 one_up "alice" u1 (known u1)
