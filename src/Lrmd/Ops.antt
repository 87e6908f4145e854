-- ===== src/Lrmd/Ops.antt =====
-- `lrmd_op_t` and `lrmd_rsc_t` of lrm/lrmd/lrmd.h, and the functions of lrm/lrmd/lrmd.c on the
-- lists of operations. An operation is known by its address, `ptr`. Its `rsc_id` is the id of the
-- resource that holds it, so that `lookup_rsc (op->rsc_id)` is that resource.
pub mod Flush
pub mod FlushAll
pub mod FlushRest
pub mod Cancel
use cluster_glue_import.Prelude.{
  ℕ, zero, suc, ◌+◌, Bool, true, false, ◌&&◌, ◌||◌, not, List, [], ◌∷◌, ◌++◌, Option, none, some,
  String, str_eq, bytes_eq, ltb, ◌==◌, if◌then◌else◌, ℤ, pos, negsuc, int_eq, rev_onto, length, ◌*◌,
}
use cluster_glue_import.Lrmd.Messages.{
  Messages, f_lrm_op, f_lrm_interval, f_lrm_opstatus, f_lrm_rc, lrm_op_cancelled,
}

-- `HA_FAIL`, `HA_OK`, `HA_RSCBUSY`, and the -1 by which `on_op_done` says that the resource is gone.
pub data Rc : Type 0 where
  ha_fail ha_ok ha_rscbusy rsc_gone : Rc

abbrev pub is_busy : Rc → Bool
is_busy ha_rscbusy = true
is_busy ha_ok = false
is_busy ha_fail = false
is_busy rsc_gone = false

abbrev pub is_ok : Rc → Bool
is_ok ha_ok = true
is_ok ha_fail = false
is_ok ha_rscbusy = false
is_ok rsc_gone = false

abbrev pub no_process : ℤ
no_process = negsuc 0

module _ (ms : Messages) where
  open ms use {Msg, value, mod_int}

  -- `exec_pid` is -1 where no process runs, and 0 in an operation that was destroyed.
  pub record Op : Type 0 where
    pub ptr : ℕ
    pub is_copy : Bool
    pub client_id : ℕ
    pub call_id : ℕ
    pub exec_pid : ℤ
    pub repeat_timeout_tag : ℕ
    pub interval : ℕ
    pub delay : ℕ
    pub is_cancelled : Bool
    pub weight : ℕ
    pub msg : Msg
    pub t_addtolist : ℕ
    pub t_perform : ℕ
    pub t_done : ℕ
    pub t_rcchange : ℕ

  -- `last_op_table` maps the name of a client and the id of an operation to the last such
  -- operation. `rsc_class` is the field `class`.
  pub record Rsc : Type 0 where
    pub id : String
    pub rsc_class : String
    pub op_list : List Op
    pub repeat_op_list : List Op
    pub last_op_table : String → List ℕ → Option Op
    pub last_op_done : Option Op
    pub delay_timeout : ℕ
    pub state : ℕ

  -- RSC_REMOVAL_PENDING, RSC_FLUSHING_OPS and the macros over them.
  abbrev pub removal_pending : ℕ
  removal_pending = 1

  abbrev pub flushing_ops : ℕ
  flushing_ops = 2

  abbrev pub rsc_frozen : Rsc → Bool
  rsc_frozen r = r.state == removal_pending || r.state == flushing_ops

  abbrev pub rsc_removal_pending : Rsc → Bool
  rsc_removal_pending r = r.state == removal_pending

  abbrev pub no_more : List Op → Bool
  no_more [] = true
  no_more (o ∷ os) = false

  -- The message that a client is sent.
  pub record Notice : Type 0 where
    pub pid : ℕ
    pub body : Msg

  -- The clients that are registered, by pid, with their `app_name`.
  abbrev pub Clients : Type 0
  Clients = ℕ → Option String

  unfoldable pub notify_client : Clients → Op → List Notice
  notify_client clients op = elim (clients op.client_id) [
    | none ↦ []
    | some app ↦ record { pid = op.client_id; body = op.msg } ∷ []
  ]

  -- `g_list_remove`: the first element that is the operation.
  unfoldable pub list_remove : List Op → ℕ → List Op
  list_remove [] p = []
  list_remove (o ∷ os) p = if o.ptr == p then os else o ∷ list_remove os p

  abbrev pub text_of : Option (List ℕ) → List ℕ
  text_of none = []
  text_of (some s) = s

  -- `lrm_concat`, where memory is at hand.
  unfoldable pub lrm_concat : Option (List ℕ) → Option (List ℕ) → ℕ → List ℕ
  lrm_concat prefix suffix join = text_of prefix ++ join ∷ text_of suffix

  -- The macro `mk_op_id`.
  unfoldable pub mk_op_id : Msg → List ℕ
  mk_op_id m = lrm_concat (value m f_lrm_op) (value m f_lrm_interval) b'_'

  -- One message written after another; the first refusal ends it.
  unfoldable pub flush_op : (ℕ → Bool) → Op → Op × Rc
  flush_op mem op =
      if int_eq op.exec_pid (pos 0)
      then (op, ha_fail)
      else elim (mod_int (mem 0) op.msg f_lrm_rc (pos 0)) [
        | none ↦ (op, ha_fail)
        | some m1 ↦
            if int_eq op.exec_pid no_process
            then elim (mod_int (mem 1) m1 f_lrm_opstatus lrm_op_cancelled) [
              | none ↦ (record op { msg = m1 }, ha_fail)
              | some m2 ↦ (record op { msg = m2 }, ha_ok)
            ]
            else (record op { msg = m1; is_cancelled = true }, ha_rscbusy)
      ]

  -- An entry of `last_op_table` written, or taken out.
  abbrev pub set_last :
      (String → List ℕ → Option Op) → String → List ℕ → Option Op → String → List ℕ → Option Op
  set_last table app key entry a k = if str_eq app a && bytes_eq key k then entry else table a k

  unfoldable pub remove_op_history : Clients → Rsc → Op → Rsc
  remove_op_history clients rsc op =
      let key = mk_op_id op.msg in
      record rsc {
        last_op_done = elim rsc.last_op_done [
          | none ↦ none
          | some last ↦ if bytes_eq key (mk_op_id last.msg) then none else some last
        ];
        last_op_table = elim (clients op.client_id) [
          | none ↦ rsc.last_op_table
          | some app ↦ set_last rsc.last_op_table app key none
        ];
      }

  -- `cancel_op` on one of the lists of a resource: the list that is left, the history, what the
  -- clients are told and the return value.
  unfoldable pub cancel_op :
      (ℕ → Bool) → Clients → Rsc → List Op → ℕ → List Op × Rsc × List Notice × Rc
  cancel_op mem clients rsc [] cancel_op_id = ([], rsc, [], ha_fail)
  cancel_op mem clients rsc (op ∷ ops) cancel_op_id =
      let (rest, rsc', told, rc) = cancel_op mem clients rsc ops cancel_op_id in
      let (op', flushed) = flush_op mem op in
      if op.call_id == cancel_op_id
      then (if is_ok flushed
          then (ops, remove_op_history clients rsc op', notify_client clients op', flushed)
          else (op' ∷ ops, rsc, [], flushed))
      else (op ∷ rest, rsc', told, rc)

  -- Whether `flush_all` leaves an operation alone: `pid` is 0 where all are flushed.
  abbrev pub spared : ℕ → Op → Bool
  spared pid op = not (pid == 0) && not (op.client_id == pid)

  -- The loop of `flush_all`, from one node on. `seen` are the nodes before it, last one first. A
  -- removal sends it back to the head of the list: `none` is a loop that has not come to an end.
  unfoldable pub flush_loop :
      ℕ
      → (ℕ → ℕ → Bool)
      → Clients
      → ℕ
      → Rsc
      → List Op
      → List Op
      → Bool
      → Option (List Op × Rsc × Bool)
  flush_loop zero mem clients pid rsc seen todo busy = none
  flush_loop (suc fuel) mem clients pid rsc seen [] busy = some (rev_onto seen [], rsc, busy)
  flush_loop (suc fuel) mem clients pid rsc seen (op ∷ ops) busy =
      let skip = flush_loop fuel mem clients pid rsc (op ∷ seen) ops busy in
      let (op', flushed) = flush_op (mem fuel) op in
      let keep = flush_loop fuel mem clients pid rsc (op' ∷ seen) ops true in
      let gone =
        flush_loop fuel mem clients pid (remove_op_history clients rsc op') [] (rev_onto seen ops)
          busy in
      if spared pid op then skip else if is_busy flushed then keep else gone

  -- `flush_all`, with rounds enough.
  unfoldable pub flush_all :
      (ℕ → ℕ → Bool) → Clients → ℕ → Rsc → List Op → Option (List Op × Rsc × Bool)
  flush_all mem clients pid rsc ops =
      let n = length ops in flush_loop (suc (n + n * n)) mem clients pid rsc [] ops false
