-- ===== src/Ipc/Write.antt =====
-- Writing to a channel: `socket_resume_io_write` of lib/clplumbing/ipcsocket.c.
use cluster_glue_import.Prelude.{
  ℕ, zero, suc, ◌+◌, ◌-◌, false, ◌&&◌, not, List, [], ◌∷◌, ◌++◌, Option, none, some, ltb, ◌==◌,
  if◌then◌else◌, length, take, drop, replicate,
}
use cluster_glue_import.Message.{Result, done, fault, unfinished, ◌>>=◌}
use cluster_glue_import.Ipc.{
  disconnect, disc_pending, Rc, ipc_ok, ipc_fail, ipc_broken, is_ok, is_rconn, is_wconn, msgpad,
  head_bytes, Message,
}
use cluster_glue_import.Ipc.Channel.{
  Sent, taken, no_space, epipe, send_error, Socket, Channel, socket_check_flow_control,
}
use cluster_glue_import.Ipc.Read.{set_status, socket_check_disc_pending, socket_resume_io_read}

-- `socket_message_new`, with the body copied into it. A message of no bytes has no memory.
abbrev pub socket_message_new : List ℕ → Message
socket_message_new [] = record { pad = none; body = [] }
socket_message_new (b ∷ bs) = record { pad = some (replicate msgpad 0); body = b ∷ bs }

abbrev pub pad_length : Message → ℕ
pad_length msg = elim msg.pad [ none ↦ 0 | some pad ↦ length pad ]

-- A message in front of which there is not the space for a header is made anew.
unfoldable pub with_headroom : Message → Message
with_headroom msg = if ltb (pad_length msg) msgpad then socket_message_new msg.body else msg

-- The `msg_len + msgpad` bytes at `msg_buf`, after the header has been written there; at NULL that
-- is a fault.
unfoldable pub wire_of : Message → Result (List ℕ)
wire_of msg = elim msg.pad [
  | none ↦ fault
  | some pad ↦ done (
      take (length msg.body + msgpad)
        (head_bytes (length msg.body) ++ drop msgpad (pad ++ msg.body)))
]

-- What the loop of `send` leaves: the socket, the bytes that remain, and the error if there is one.
pub record Sending : Type 0 where
  pub sock : Socket
  pub rest : List ℕ
  pub error : Option Sent

abbrev pub out : Socket → List Sent → List ℕ → Socket
out sock sends s = record sock { sends = sends; output = sock.output ++ s }

-- The `do` loop on the bytes at `p`. `send` takes as many bytes as there are, at most.
unfoldable pub send_loop : Socket → List Sent → List ℕ → Sending
send_loop sock [] p = record { sock = out sock [] []; rest = p; error = some no_space }
send_loop sock (taken n ∷ sends) p = elim n [
  | zero ↦ record { sock = out sock sends []; rest = p; error = none }
  | suc k ↦
      let s = take (suc k) p in
      let next = send_loop (out sock sends s) sends (drop (suc k) p) in
      if ltb (suc k) (length p)
      then next
      else record { sock = out sock sends s; rest = []; error = none }
]
send_loop sock (no_space ∷ sends) p = record {
  sock = out sock sends [];
  rest = p;
  error = some no_space;
}
send_loop sock (epipe ∷ sends) p = record { sock = out sock sends []; rest = p; error = some epipe }
send_loop sock (send_error ∷ sends) p = record {
  sock = out sock sends [];
  rest = p;
  error = some send_error;
}

-- The first message is gone.
abbrev pub without_first : Channel → List Message → Channel
without_first ch rest = record ch {
  send_queue = record ch.send_queue { queue = rest; current_qlen = ch.send_queue.current_qlen - 1 };
}

abbrev pub dequeue : Channel → List Message → Channel
dequeue ch rest =
    let n = ch.send_queue.current_qlen in
    socket_check_flow_control (without_first ch rest) n (n - 1)

-- What the loop over the messages leaves, with its `nmsg`.
pub record Written : Type 0 where
  pub channel : Channel
  pub nmsg : ℕ
  pub rc : Rc

abbrev pub written : Channel → ℕ → Rc → Written
written ch n rc = record { channel = ch; nmsg = n; rc = rc }

-- An error of `send`.
unfoldable pub on_send_error : Channel → Sent → ℕ → Result Written
on_send_error ch epipe n = do
  o ←
      socket_check_disc_pending (λ ch'. socket_resume_io_read ch' false)
        (set_status ch disc_pending)
  done (written o.channel n ipc_broken)
on_send_error ch send_error n = done (written (set_status ch disconnect) n ipc_fail)
on_send_error ch no_space n = done (written ch n ipc_ok)
on_send_error ch (taken k) n = done (written ch n ipc_ok)

-- The bytes of the first message that are to be sent.
abbrev pub to_send : ℕ → List ℕ → List ℕ
to_send zero wire = wire
to_send (suc n) wire = drop (length wire - suc n) wire

abbrev pub sent_of : Channel → Sending → Channel
sent_of ch s = record ch { sock = s.sock; bytes_remaining = length s.rest }

-- What follows the loop of `send`. The rest of the loop over the messages is `next`.
abbrev pub after_send :
    (Channel → ℕ → Result Written) → Channel → List Message → Sending → ℕ → Result Written
after_send next ch rest s nmsg = elim s.error [
  | some e ↦ on_send_error (sent_of ch s) e nmsg
  | none ↦
      if length s.rest == 0
      then next (dequeue (sent_of ch s) rest) (suc nmsg)
      else next (sent_of ch s) nmsg
]

-- A round of the loop, which goes on with `next`.
abbrev pub next_message :
    (Channel → ℕ → Result Written) → Channel → ℕ → List Message → Result Written
next_message next ch nmsg [] =
    done
      (written (record ch { send_queue = record ch.send_queue { current_qlen = 0 } }) nmsg ipc_ok)
next_message next ch nmsg (msg ∷ rest) = do
  wire ← wire_of (with_headroom msg)
  after_send next ch rest (send_loop ch.sock ch.sock.sends (to_send ch.bytes_remaining wire)) nmsg

unfoldable pub write_loop : ℕ → Channel → ℕ → Result Written
write_loop zero ch nmsg = unfinished
write_loop (suc fuel) ch nmsg =
    if is_wconn ch.ch_status && ltb 0 ch.send_queue.current_qlen
    then next_message (write_loop fuel) ch nmsg ch.send_queue.queue
    else done (written ch nmsg ipc_ok)

abbrev pub write_returned : Written → Written
write_returned w =
    if not (is_ok w.rc)
    then w
    else written w.channel w.nmsg (if is_rconn w.channel.ch_status then ipc_ok else ipc_broken)

-- A round of the loop takes an answer of `send`.
unfoldable pub socket_resume_io_write : Channel → Result Written
socket_resume_io_write ch = do
  w ← write_loop (suc (length ch.sock.sends)) ch 0
  done (write_returned w)
