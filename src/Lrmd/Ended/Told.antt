-- ===== src/Lrmd/Ended/Told.antt =====
-- From the end of a process to what its client is told and the next operation that is started:
-- `on_ra_proc_finished` of lrm/lrmd/lrmd.c with `on_op_done` and `perform_op`.
use cluster_glue_import.Prelude.{
  arith, ℕ, ◌-◌, ◌≤◌, ◌≡◌, refl, ap, ◌∙◌, sym, subst, inl, inr, Bool-cases, Option-cases, Bool,
  true, false, ◌&&◌, ◌||◌, List, [], ◌∷◌, ◌++◌, append-nil, Option, some, is_some, String, ◌==◌,
  if◌then◌else◌, ℤ, pos, negsuc, int_eq, length, All,
}
use cluster_glue_import.Message.Scan.{in_int}
use cluster_glue_import.Lrmd.Messages.{
  name_eq, is_written, Messages, f_lrm_opstatus, f_lrm_rc, f_lrm_lastrc, f_lrm_targetrc, f_lrm_data,
  lrm_op_cancelled,
}
use cluster_glue_import.Lrmd.Ops.{Op, Rsc, Notice, no_process, list_remove, rsc_removal_pending}
use cluster_glue_import.Lrmd.Ops.Flush.{IsLive}
use cluster_glue_import.Lrmd.Done.{World, write, on_op_done, or_else}
use cluster_glue_import.Lrmd.Done.Way.{rc_of, last_rc_of}
use cluster_glue_import.Lrmd.Done.Settled.{is_known}
use cluster_glue_import.Lrmd.Done.Outcome.{done_told, done_status, done_leaves, is_wanted}
use cluster_glue_import.Lrmd.Perform.{Round}
use cluster_glue_import.Lrmd.Perform.Queue.{IsCalm, IsQueued, perform_op-Tail}
use cluster_glue_import.Lrmd.Ended.{
  Exit, exit_rc, exit_status, with_data, ProcEnded, start_next, on_ra_proc_finished,
}

module _ (ms : Messages) (add_text : Bool → ms.Msg → String → List ℕ → Option ms.Msg)
    (value_int-add_text : (a : Bool) (m m' : ms.Msg) (n k : String) (s : List ℕ)
      → add_text a m n s ≡ some m'
      → is_written n ≡ true
      → name_eq n k ≡ false
      → ms.value_int m' k ≡ ms.value_int m k)
    (w : World ms) (h : (i : ℕ) → w.mem i ≡ true) where
  open ms use {value_int, value, remove}

  -- The output does not touch the numbers, nor anything but the message.
  record SameButData (op op' : Op ms) : Type 0 where
    ints : (k : String) → name_eq f_lrm_data k ≡ false → value_int op'.msg k ≡ value_int op.msg k
    rest : op' ≡ record op { msg = op'.msg }

  removed :
      (b : Bool) (op : Op ms) (k : String)
      → name_eq f_lrm_data k ≡ false
      → value_int (if b then remove op.msg f_lrm_data else op.msg) k ≡ value_int op.msg k
  removed true op k q = ms.value_int-remove op.msg f_lrm_data k q
  removed false op k q = refl

  data-Same : (op : Op ms) (line : List ℕ) → SameButData op (with_data ms add_text w op line)
  unfolding with_data
  data-Same op line =
      let b = is_some (value op.msg f_lrm_data) in
      let m = if b then remove op.msg f_lrm_data else op.msg in
      elim (Bool-cases (length line == 0)) [
        | inl e ↦ rw e (record { ints = λ k _. refl; rest = refl })
        | inr e ↦ elim (Option-cases (add_text (w.mem 10) m f_lrm_data line)) [
          | inl f ↦ rw (e, f) (record { ints = λ k q. removed b op k q; rest = refl })
          | inr (m', f) ↦
              rw (e, f)
                (record {
                  ints = λ k q.
                      value_int-add_text (w.mem 10) m m' f_lrm_data k line f refl q
                      ∙ removed b op k q;
                  rest = refl;
                })
        ]
      ]

  write_lem :
      (i : ℕ) (op : Op ms) (n : String) (v : ℤ)
      → is_written n ≡ true
      → in_int v ≡ true
      → (m : ms.Msg) × (write ms w (w.mem i) op n v ≡ (record op { msg = m }, true))
        × ((k : String) → value_int m k ≡ (if name_eq n k then some v else value_int op.msg k))
  unfolding write
  write_lem i op n v r f =
      let (m, e) = ms.mod_int-some op.msg n v r in
      (m, rw (h i, write, e), λ k. ms.value_int-mod_int n k e r (ground (arith, f)))

  status_in_int :
      (map_ra_retvalue : ℤ → ℤ) (e : Exit) → in_int (exit_status map_ra_retvalue e) ≡ true
  unfolding exit_status
  status_in_int map_ra_retvalue e = ground arith

  list_remove-All :
      (P : Op ms → Type 0) (ops : List (Op ms)) (p : ℕ) → All P ops → All P (list_remove ms ops p)
  unfolding list_remove
  list_remove-All P [] p a = tt
  list_remove-All P (o ∷ os) p (x, xs) = elim (Bool-cases (o.ptr == p)) [
    | inl e ↦ rw e xs
    | inr e ↦ rw e (x, list_remove-All P os p xs)
  ]

  -- Whether the client of an operation is told of its end with this status and return code.
  abbrev pub hears : Rsc ms → Bool → Bool → (target status rc last_rc : ℤ) → Bool
  hears rsc known cancelled target status rc last_rc =
      known && (cancelled || is_wanted status target rc last_rc (rsc_removal_pending ms rsc))

  abbrev pub Says : ℕ → Bool → ℤ → List (Notice ms) → Type 0
  Says client_id cancelled status = All (λ (n : Notice ms).
      (n.pid ≡ client_id)
      × (value_int n.body f_lrm_opstatus ≡ some (if cancelled then lrm_op_cancelled else status)))

  -- What a client is told of the operation itself, before the next one is started.
  pub record Told (rsc : Rsc ms) (op : Op ms) (target status rc : ℤ) (max : ℕ)
      (p : ProcEnded ms add_text) : Type 0 where
    pub now : List (Notice ms)
    pub later : List (Notice ms)
    pub split : p.told ≡ now ++ later
    pub count : length now ≡ (
        if hears rsc (is_known ms w op) op.is_cancelled target status rc (last_rc_of ms op)
        then 1
        else 0)
    pub what : Says op.client_id op.is_cancelled status now
    pub within : p.child_count ≤ max

  module _ (ra_exec_funcs : String → Option (ℤ → ℤ)) (map_ra_retvalue : ℤ → ℤ)
      (rounds : ℕ → Round ms) (max : ℕ) (rsc : Rsc ms) (child_count : ℕ) (op : Op ms) (e : Exit)
      (target : ℤ) (plugin : ra_exec_funcs rsc.rsc_class ≡ some map_ra_retvalue)
      (live : IsLive ms op) (has_target : value_int op.msg f_lrm_targetrc ≡ some target)
      (fits : in_int (exit_rc map_ra_retvalue e) ≡ true) where
    abbrev status : ℤ
    status = exit_status map_ra_retvalue e

    abbrev rc : ℤ
    rc = exit_rc map_ra_retvalue e

    -- The operation that `on_op_done` gets.
    record Reported : Type 0 where
      last : Op ms
      ends :
          on_ra_proc_finished ms add_text ra_exec_funcs w rounds max rsc child_count op e
          ≡ start_next ms add_text w rounds max (child_count - op.weight) (on_op_done ms w rsc last)
      has_status : value_int last.msg f_lrm_opstatus ≡ some status
      has_rc : value_int last.msg f_lrm_rc ≡ some rc
      other :
          (k : String)
          → name_eq f_lrm_opstatus k ≡ false
          → name_eq f_lrm_rc k ≡ false
          → name_eq f_lrm_data k ≡ false
          → value_int last.msg k ≡ value_int op.msg k
      rest : last ≡ record op { exec_pid = no_process; msg = last.msg }

    reported : Reported
    unfolding on_ra_proc_finished
    reported =
        let op1 : Op ms = record op { exec_pid = no_process } in
        let (m1, e1, v1) =
          write_lem 8 op1 f_lrm_opstatus status refl (status_in_int map_ra_retvalue e) in
        let (m2, e2, v2) = write_lem 9 (record op1 { msg = m1 }) f_lrm_rc rc refl fits in
        let d = data-Same (record op1 { msg = m2 }) e.first_line in
        record {
          last = with_data ms add_text w (record op1 { msg = m2 }) e.first_line;
          ends = rw (live, plugin, e1, e2);
          has_status = d.ints f_lrm_opstatus refl ∙ v2 f_lrm_opstatus ∙ v1 f_lrm_opstatus;
          has_rc = d.ints f_lrm_rc refl ∙ v2 f_lrm_rc;
          other = λ k a b c.
              d.ints k c
              ∙ v2 k
              ∙ ap (λ t. if t then some rc else value_int m1 k) b
              ∙ v1 k
              ∙ ap (λ t. if t then some status else value_int op.msg k) a;
          rest = d.rest;
        }

    -- Let memory be at hand, no child have the process id 0, every queued operation have a target and
    -- a weight of at most 1, and no more than `max` processes run apart from this one; let the
    -- operation not be destroyed and have a target, its class have a plugin whose mapped code is
    -- an int, and `ha_msg_add` of a text leave the numbers of other fields alone. Then `on_ra_proc_finished` ends. The client of
    -- the operation is told once, exactly if it is registered and wants it, that the operation was
    -- cancelled if it was, and otherwise that it timed out, failed or is done, as the signal, the
    -- timeout and the mapped exit code say. No more than `max` processes run then.
    pub on_ra_proc_finished_lem :
        ((i : ℕ) → IsCalm ms (rounds i))
        → All (IsQueued ms) rsc.op_list
        → child_count - op.weight ≤ max
        → (p : ProcEnded ms add_text) × (on_ra_proc_finished ms add_text ra_exec_funcs w rounds max
              rsc child_count op e
            ≡ some p)
          × Told rsc op target status rc max p
    on_ra_proc_finished_lem calm queued few =
        let r = reported in
        let f = on_op_done ms w rsc r.last in
        let alive : IsLive ms r.last = ap (λ (o : Op ms). int_eq o.exec_pid (pos 0)) r.rest in
        let t = r.other f_lrm_targetrc refl refl refl ∙ has_target in
        let count = done_told ms w h rsc r.last target status alive t r.has_status in
        let what = done_status ms w h rsc r.last target status alive t r.has_status in
        let left = done_leaves ms w h rsc r.last target status alive t r.has_status in
        let (p, run, tail) =
          perform_op-Tail ms rounds max f.rsc (child_count - op.weight) calm
            (subst (λ l. All (IsQueued ms) l) (sym left)
              (list_remove-All (IsQueued ms) rsc.op_list r.last.ptr queued))
            few in
        let client : r.last.client_id ≡ op.client_id = ap (λ (o : Op ms). o.client_id) r.rest in
        let cancelled : r.last.is_cancelled ≡ op.is_cancelled =
          ap (λ (o : Op ms). o.is_cancelled) r.rest in
        let rcs : rc_of ms r.last ≡ rc = ap (λ v. or_else v (negsuc 0)) r.has_rc in
        let last_rcs : last_rc_of ms r.last ≡ last_rc_of ms op =
          ap (λ v. or_else v (negsuc 0)) (r.other f_lrm_lastrc refl refl refl) in
        let same : hears rsc (is_known ms w r.last) r.last.is_cancelled target status
              (rc_of ms r.last) (last_rc_of ms r.last)
            ≡ hears rsc (is_known ms w op) op.is_cancelled target status rc (last_rc_of ms op) =
          rw (client, cancelled, rcs, last_rcs) in
        let count' = count ∙ ap (λ b. if b then 1 else 0) same in
        let what' : Says op.client_id op.is_cancelled status f.told =
          subst (λ c. Says c op.is_cancelled status f.told) client
            (subst (λ b. Says r.last.client_id b status f.told) cancelled what) in
        let n = child_count - op.weight in
        let last_one : ProcEnded ms add_text = record {
          rsc = f.rsc;
          gone = true;
          child_count = n;
          told = f.told;
        } in
        let goes_on : ProcEnded ms add_text = record {
          rsc = p.rsc;
          gone = false;
          child_count = p.child_count;
          told = f.told ++ p.told;
        } in
        elim (Bool-cases f.gone) [
          | inl gone ↦ (
            last_one,
            r.ends ∙ rw gone,
            record {
              now = f.told;
              later = [];
              split = sym (append-nil f.told);
              count = count';
              what = what';
              within = few;
            },
          )
          | inr stays ↦ (
            goes_on,
            r.ends ∙ rw (stays, run),
            record {
              now = f.told;
              later = p.told;
              split = refl;
              count = count';
              what = what';
              within = tail.within;
            },
          )
        ]
