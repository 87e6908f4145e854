-- ===== src/Ipc/Read.antt =====
-- Reading from a channel: `socket_resume_io_read` of lib/clplumbing/ipcsocket.c and the two checks
-- of the connection.
use cluster_glue_import.Prelude.{
  ℕ, zero, suc, Bool, false, ◌&&◌, ◌||◌, not, List, [], ◌∷◌, Option, none, some, ltb, ◌==◌,
  if◌then◌else◌, length,
}
use cluster_glue_import.Message.{Result, done, unfinished, ◌>>=◌}
use cluster_glue_import.Ipc.{
  Status, disconnect, disc_pending, Rc, ipc_ok, ipc_fail, ipc_broken, is_ok, is_rconn,
  is_disconnect, is_disc_pending,
}
use cluster_glue_import.Ipc.Pool.{
  Pool, ipc_bufpool_new, ipc_bufpool_spaceleft, ipc_bufpool_full, ipc_bufpool_partial_copy, Updated,
  ipc_bufpool_update,
}
use cluster_glue_import.Ipc.Channel.{
  Received, bytes, nothing_yet, reset, recv_error, Polled, Channel, recv, next_poll, polled,
}

abbrev pub set_status : Channel → Status → Channel
set_status ch s = record ch { ch_status = s }

-- A channel and what the function that made it returns.
pub record Outcome : Type 0 where
  pub channel : Channel
  pub rc : Rc

abbrev pub outcome : Channel → Rc → Outcome
outcome ch rc = record { channel = ch; rc = rc }

-- `socket_check_poll` on a poll for errors alone, whose `events` is 0.
unfoldable pub socket_check_poll : Channel → Polled → Outcome
socket_check_poll ch p =
    if is_disconnect ch.ch_status
    then outcome ch ipc_ok
    else if p.hup
    then outcome (set_status ch disc_pending) ipc_ok
    else if not p.bad
    then outcome ch ipc_ok
    else if p.closed
    then outcome (set_status ch disconnect) ipc_ok
    else outcome ch ipc_fail

-- What `socket_resume_io_read` leaves, with its `nbytes`.
pub record Read : Type 0 where
  pub channel : Channel
  pub nbytes : ℕ
  pub rc : Rc

abbrev pub read_of : ℕ → Outcome → Read
read_of n o = record { channel = o.channel; nbytes = n; rc = o.rc }

-- A read whose result is not looked at.
abbrev pub read_ignored : Result Read → Result Outcome
read_ignored read = do r ← read; done (outcome r.channel ipc_ok)

-- `socket_check_disc_pending`, which reads by `read`.
unfoldable pub socket_check_disc_pending : (Channel → Result Read) → Channel → Result Outcome
socket_check_disc_pending read ch =
    let p = next_poll ch.sock.polls in
    if is_disconnect ch.ch_status
    then done (outcome ch ipc_broken)
    else if ltb 0 ch.recv_queue.current_qlen
    then done (outcome ch ipc_ok)
    else if p.failed || (p.hup && not p.input)
    then done (outcome (set_status (polled ch) disconnect) ipc_broken)
    else if p.input
    then read_ignored (read (set_status (polled ch) (if p.hup then disc_pending else ch.ch_status)))
    else done (outcome (polled ch) ipc_ok)

-- The pool that is read into; `none` is IPC_FAIL.
abbrev pub pool_at_hand : Option Pool → Option Pool
pool_at_hand none = ipc_bufpool_new 0
pool_at_hand (some pool) = some pool

abbrev pub copied_to : Option Pool → Pool → Option Pool
copied_to none old = none
copied_to (some new) old = let (pool, _) = ipc_bufpool_partial_copy new old in some pool

unfoldable pub pool_with_space : Pool → Option Pool
pool_with_space pool =
    let (full, needed) = ipc_bufpool_full pool in
    if full then copied_to (ipc_bufpool_new needed) pool else some pool

abbrev pub received_of : Channel → Pool → List Received → Channel
received_of ch pool input = record ch { pool = some pool; sock = record ch.sock { input = input } }

-- The channel after `ipc_bufpool_update`.
abbrev pub updated_of : Channel → Updated → ℕ → Read
updated_of ch u n =
    let ch' = record ch { pool = some u.pool; recv_queue = u.rqueue } in
    elim u.nmsgs [
      | none ↦ read_of n (outcome (set_status ch' disconnect) ipc_fail)
      | some _ ↦ read_of n (outcome ch' ipc_ok)
    ]

-- What the answer of `recv` leads to.
unfoldable pub on_received : (Channel → Result Read) → Channel → Pool → Received → Result Read
on_received read ch pool (bytes []) = done (
    read_of 0 (
      if ltb 0 ch.recv_queue.current_qlen
      then outcome (set_status ch disc_pending) ipc_ok
      else outcome (set_status ch disconnect) ipc_fail))
on_received read ch pool (bytes (c ∷ cs)) = do
  u ← ipc_bufpool_update pool (c ∷ cs) ch.recv_queue
  done (updated_of ch u (suc (length cs)))
on_received read ch pool nothing_yet = done (
    read_of 0 (
      if is_disc_pending ch.ch_status
      then outcome (set_status ch disconnect) ipc_broken
      else outcome ch ipc_ok))
on_received read ch pool reset = do
  o ← socket_check_disc_pending read (set_status ch disc_pending)
  done (read_of 0 o)
on_received read ch pool recv_error = done (read_of 0 (outcome (set_status ch disconnect) ipc_fail))

-- The call of `recv`, where the queue has space. `max_qlen` is unsigned.
abbrev pub receive : (Channel → Result Read) → Channel → Pool → Bool → Result Read
receive read ch pool read1anyway =
    let r = recv ch.sock.input (ipc_bufpool_spaceleft pool) in
    let maxqlen =
      if ch.recv_queue.max_qlen == 0 && read1anyway then 1 else ch.recv_queue.max_qlen in
    if ltb ch.recv_queue.current_qlen maxqlen
    then on_received read (received_of ch pool r.input) pool r.answer
    else done (read_of 0 (outcome (record ch { pool = some pool }) ipc_ok))

-- The end: the check for errors, and the value that is returned.
abbrev pub returned : Outcome → Rc
returned o =
    if not (is_ok o.rc) then o.rc else if is_rconn o.channel.ch_status then ipc_ok else ipc_broken

unfoldable pub check_errors : Read → Read
check_errors r =
    let o = socket_check_poll (polled r.channel) (next_poll r.channel.sock.polls) in
    if is_ok r.rc then record { channel = o.channel; nbytes = r.nbytes; rc = returned o } else r

-- A read calls itself only when `recv` answers that the connection was reset.
unfoldable pub read_fuel : ℕ → Channel → Bool → Result Read
read_fuel zero ch read1anyway = unfinished
read_fuel (suc fuel) ch read1anyway =
    if is_disconnect ch.ch_status
    then done (read_of 0 (outcome ch ipc_broken))
    else elim (pool_at_hand ch.pool) [
      | none ↦ done (read_of 0 (outcome ch ipc_fail))
      | some pool ↦ elim (pool_with_space pool) [
        | none ↦ done (read_of 0 (outcome (record ch { pool = some pool }) ipc_fail))
        | some pool' ↦ do
          r ← receive (λ ch'. read_fuel fuel ch' false) ch pool' read1anyway
          done (check_errors r)
      ]
    ]

unfoldable pub socket_resume_io_read : Channel → Bool → Result Read
socket_resume_io_read ch read1anyway = read_fuel (suc (length ch.sock.input)) ch read1anyway
