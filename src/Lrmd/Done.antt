-- ===== src/Lrmd/Done.antt =====
-- `on_op_done` of lrm/lrmd/lrmd.c and what it calls: the record of a completed operation, its
-- repetition, and who is told.
pub mod Way
pub mod Settled
pub mod Outcome
use cluster_glue_import.Prelude.{
  ℕ, zero, suc, ◌+◌, ◌-◌, ◌/◌, ◌%◌, Bool, true, false, ◌&&◌, ◌||◌, not, List, [], ◌∷◌, ◌++◌, Option,
  none, some, String, ltb, ◌==◌, if◌then◌else◌, ℤ, pos, negsuc, int_eq, ◌>>=◌,
}
use cluster_glue_import.Longclock.{wide, sub_longclock, longclockto_ms}
use cluster_glue_import.Lrmd.Messages.{
  Messages, f_lrm_opstatus, f_lrm_rc, f_lrm_lastrc, f_lrm_targetrc, f_lrm_rscdeleted, f_lrm_t_run,
  f_lrm_t_rcchange, f_lrm_exec_time, f_lrm_queue_time, lrm_op_done, lrm_op_cancelled, everytime,
  changed,
}
use cluster_glue_import.Lrmd.Ops.{
  Op, Rsc, Rc, ha_ok, ha_fail, rsc_gone, Clients, Notice, no_process, notify_client, list_remove,
  mk_op_id, remove_op_history, set_last, no_more, rsc_removal_pending,
}

-- What the world answers while a handler runs: the clock, the calendar, the clients, memory, and
-- the addresses and timers that are handed out.
pub record World (ms : Messages) : Type 0 where
  pub now : ℕ
  pub later : ℕ
  pub hz : ℕ
  pub unix_time : ℕ
  pub clients : Clients ms
  pub mem : ℕ → Bool
  pub new_ptr : ℕ → ℕ
  pub timer : ℕ

abbrev pub or_else : Option ℤ → ℤ → ℤ
or_else none d = d
or_else (some v) d = v

-- Whether the return code is new: the variable `rc_changed`.
abbrev pub rc_changed : ℤ → ℤ → ℤ → Bool
rc_changed op_status op_rc last_rc =
    int_eq op_status lrm_op_done
    && not (int_eq op_rc (negsuc 0))
    && (int_eq last_rc (negsuc 0) || not (int_eq last_rc op_rc))

module _ (ms : Messages) (w : World ms) where
  open ms use {Msg, value_int, mod_int, add_int, remove}

  -- `lrmd_op_copy`, at a new address.
  unfoldable pub lrmd_op_copy : ℕ → Op ms → Op ms
  lrmd_op_copy ptr op = record op {
    ptr = ptr;
    is_copy = true;
    exec_pid = no_process;
    repeat_timeout_tag = 0;
    is_cancelled = false;
  }

  -- The macro `tm2unix` and, in it, `tm2age`, in the arithmetic of `unsigned long`.
  abbrev pub tm2unix : ℕ → ℤ
  tm2unix tm =
      let age = if tm == 0 then 0 else longclockto_ms w.hz (sub_longclock w.later tm) + 999 in
      pos ((w.unix_time + wide - age / 1000) % wide)

  abbrev pub queue_time : Op ms → ℕ
  queue_time op =
      if op.t_perform == 0
      then 0
      else longclockto_ms w.hz (sub_longclock op.t_perform op.t_addtolist)

  abbrev pub exec_time : Op ms → ℕ
  exec_time op =
      if op.t_perform == 0 || op.t_done == 0
      then 0
      else longclockto_ms w.hz (sub_longclock op.t_done op.t_perform)

  -- A field of the operation's message written, and whether it was.
  unfoldable pub write : Bool → Op ms → String → ℤ → Op ms × Bool
  write a op n v = elim (mod_int a op.msg n v) [
    | none ↦ (op, false)
    | some m ↦ (record op { msg = m }, true)
  ]

  -- `store_timestamps`, and whether it returns 0. A refused write leaves the fields before it.
  unfoldable pub store_timestamps : Op ms → Op ms × Bool
  store_timestamps op =
      let (op1, ok1) = write (w.mem 1) op f_lrm_t_run (tm2unix op.t_perform) in
      let (op2, ok2) = write (w.mem 2) op1 f_lrm_t_rcchange (tm2unix op.t_rcchange) in
      let (op3, ok3) = write (w.mem 3) op2 f_lrm_exec_time (pos (exec_time op)) in
      let (op4, ok4) = write (w.mem 4) op3 f_lrm_queue_time (pos (queue_time op)) in
      if not ok1
      then (op, false)
      else if not ok2
      then (op1, false)
      else if not ok3
      then (op2, false)
      else (op4, ok4)

  unfoldable pub reset_timestamps : Op ms → Op ms
  reset_timestamps op = record op {
    t_perform = 0;
    t_done = 0;
    msg =
        remove (remove (remove (remove op.msg f_lrm_t_run) f_lrm_t_rcchange) f_lrm_exec_time)
          f_lrm_queue_time;
  }

  -- `replace_last_op`: in a hash table an entry is replaced or added alike.
  unfoldable pub replace_last_op : String → Rsc ms → Op ms → Rsc ms
  replace_last_op app rsc op = record rsc {
    last_op_table =
        set_last ms rsc.last_op_table app (mk_op_id ms op.msg)
          (some (lrmd_op_copy (w.new_ptr 0) op));
  }

  -- `record_op_completion`, and whether it returns 0.
  unfoldable pub record_op_completion : Rsc ms → Op ms → Rsc ms × Bool
  record_op_completion rsc op =
      let rsc' = record rsc { last_op_done = some (lrmd_op_copy (w.new_ptr 1) op) } in
      elim (w.clients op.client_id) [
        | none ↦ (rsc', false)
        | some app ↦ (replace_last_op app rsc' op, true)
      ]

  unfoldable pub to_repeatlist : Rsc ms → Op ms → Rsc ms
  to_repeatlist rsc op =
      let repeat_op = reset_timestamps (lrmd_op_copy (w.new_ptr 2) op) in
      record rsc {
        repeat_op_list =
            rsc.repeat_op_list
            ++ record repeat_op { is_copy = false; repeat_timeout_tag = w.timer } ∷ [];
      }

  -- The test before `notify_client`.
  abbrev pub to_notify : Rsc ms → ℤ → ℤ → ℤ → Bool → Bool
  to_notify rsc op_status op_rc target_rc new =
      not (int_eq op_status lrm_op_done)
      || int_eq op_rc (negsuc 0)
      || int_eq op_rc target_rc
      || int_eq target_rc everytime
      || (int_eq target_rc changed && new)
      || rsc_removal_pending ms rsc

  -- The resource, what the clients are told, whether the resource is gone, and the return value:
  -- HA_OK, HA_FAIL, or -1 for one that is gone.
  pub record Finished : Type 0 where
    pub rsc : Rsc ms
    pub told : List (Notice ms)
    pub gone : Bool
    pub rc : Rc

  -- The end: an empty list lifts the freeze, or ends in the removal that waited for it.
  -- `lrmd_rsc_destroy` refuses while there are repeating operations, and `rc` is -1 all the same.
  unfoldable pub settle : Rsc ms → List (Notice ms) → Finished
  settle rsc told = elim rsc.op_list [
    | [] ↦
        if rsc_removal_pending ms rsc
        then record { rsc = rsc; told = told; gone = true; rc = rsc_gone }
        else record { rsc = record rsc { state = 0 }; told = told; gone = false; rc = ha_ok }
    | o ∷ os ↦ record { rsc = rsc; told = told; gone = false; rc = ha_ok }
  ]

  -- The object that an address stands for, changed in a list that holds it.
  unfoldable pub put_op : List (Op ms) → Op ms → List (Op ms)
  put_op [] op = []
  put_op (o ∷ os) op = if o.ptr == op.ptr then op ∷ os else o ∷ put_op os op

  -- HA_FAIL while the operation is still in `op_list`.
  abbrev pub stays : Rsc ms → Op ms → Finished
  stays rsc op = record {
    rsc = record rsc { op_list = put_op rsc.op_list op };
    told = [];
    gone = false;
    rc = ha_fail;
  }

  -- The operation that is not cancelled.
  abbrev pub keep_record : Rsc ms → Op ms → Rsc ms
  keep_record rsc op =
      let (rsc', recorded) = record_op_completion rsc op in
      if recorded && not (op.interval == 0) then to_repeatlist rsc' op else rsc'

  -- The message says that the resource goes, if there is memory for that.
  abbrev pub deleted : Op ms → Op ms
  deleted op = elim (add_int (w.mem 6) op.msg f_lrm_rscdeleted (pos 1)) [
    | none ↦ op
    | some m ↦ record op { msg = m }
  ]

  -- From the removal from `op_list` on.
  unfoldable pub leave_queue : Rsc ms → Op ms → ℤ → ℤ → ℤ → Bool → Finished
  leave_queue rsc op op_status op_rc target_rc new =
      let left = record rsc { op_list = list_remove ms rsc.op_list op.ptr } in
      let (op1, saved) = write (w.mem 5) op f_lrm_opstatus lrm_op_cancelled in
      let kept =
        if op.is_cancelled then remove_op_history ms w.clients left op1 else keep_record left op in
      let op2 = if op.is_cancelled then op1 else op in
      let status = if op.is_cancelled then lrm_op_cancelled else op_status in
      let sent = if rsc_removal_pending ms kept then deleted op2 else op2 in
      if op.is_cancelled && not saved
      then record { rsc = left; told = []; gone = false; rc = ha_fail }
      else settle kept (
          if to_notify kept status op_rc target_rc new then notify_client ms w.clients sent else [])

  -- `on_op_done`, up to the end of the daemon itself.
  unfoldable pub on_op_done : Rsc ms → Op ms → Finished
  on_op_done rsc op =
      if int_eq op.exec_pid (pos 0)
      then record { rsc = rsc; told = []; gone = false; rc = ha_fail }
      else let op0 = record op { t_done = w.now } in
        elim (value_int op.msg f_lrm_targetrc) [
          | none ↦ stays rsc op0
          | some target_rc ↦ elim (value_int op.msg f_lrm_opstatus) [
            | none ↦ stays rsc op0
            | some op_status ↦
                let op_rc = or_else (value_int op.msg f_lrm_rc) (negsuc 0) in
                let last_rc = or_else (value_int op.msg f_lrm_lastrc) (negsuc 0) in
                let new = rc_changed op_status op_rc last_rc in
                let (op1, saved) = write (w.mem 0) op0 f_lrm_lastrc op_rc in
                let op2 = if new then record op1 { t_rcchange = op.t_perform } else op0 in
                let (op3, stored) = store_timestamps op2 in
                if new && not saved
                then stays rsc op0
                else if not stored
                then stays rsc op3
                else leave_queue rsc op3 op_status op_rc target_rc new
          ]
        ]
