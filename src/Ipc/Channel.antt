-- ===== src/Ipc/Channel.antt =====
-- A channel of lib/clplumbing/ipcsocket.c with its socket.
use cluster_glue_import.Prelude.{
  ℕ, Bool, true, false, ◌&&◌, not, List, [], ◌∷◌, ◌++◌, Option, none, leb, if◌then◌else◌, length,
  take, drop, ℤ, pos, negsuc,
}
use cluster_glue_import.Ipc.{Status, disconnect, is_rconn, Message, Queue, socket_queue_new}
use cluster_glue_import.Ipc.Pool.{Pool}

-- An answer of `recv`: bytes that are there together, of which none is the end of the stream;
-- EAGAIN; ECONNREFUSED or ECONNRESET; another error.
pub data Received : Type 0 where
  bytes : List ℕ → Received
  nothing_yet : Received
  reset : Received
  recv_error : Received

-- An answer of `send`: a number of bytes that are taken; EAGAIN; EPIPE; another error.
pub data Sent : Type 0 where
  taken : ℕ → Sent
  no_space : Sent
  epipe : Sent
  send_error : Sent

-- An answer of `poll`: whether it fails, POLLHUP, POLLIN, one of POLLNVAL and POLLERR, and
-- whether F_GETFL fails then.
pub record Polled : Type 0 where
  pub failed : Bool
  pub hup : Bool
  pub input : Bool
  pub bad : Bool
  pub closed : Bool

-- What the system will answer, and what it has taken.
pub record Socket : Type 0 where
  pub input : List Received
  pub sends : List Sent
  pub polls : List Polled
  pub output : List ℕ

-- The callbacks of flow control that are called.
pub data Flow : Type 0 where
  high_flow : Flow
  low_flow : Flow

pub record Channel : Type 0 where
  pub ch_status : Status
  pub sock : Socket
  pub bytes_remaining : ℕ
  pub should_send_block : Bool
  pub should_block_fail : Bool
  pub send_queue : Queue Message
  pub recv_queue : Queue (List ℕ)
  pub pool : Option Pool
  pub high_flow_mark : ℤ
  pub low_flow_mark : ℤ
  pub high_flow_callback : Bool
  pub low_flow_callback : Bool
  pub flows : List Flow

-- `channel_new` on a descriptor that takes its flags.
abbrev pub channel_new : Socket → Channel
channel_new sock = record {
  ch_status = disconnect;
  sock = sock;
  bytes_remaining = 0;
  should_send_block = false;
  should_block_fail = true;
  send_queue = socket_queue_new Message;
  recv_queue = socket_queue_new (List ℕ);
  pool = none;
  high_flow_mark = pos (socket_queue_new Message).max_qlen;
  low_flow_mark = negsuc 0;
  high_flow_callback = false;
  low_flow_callback = false;
  flows = [];
}

-- `recv` into `len` bytes. The bytes that do not fit stay.
pub record Recv : Type 0 where
  pub answer : Received
  pub input : List Received

unfoldable pub recv : List Received → ℕ → Recv
recv [] len = record { answer = nothing_yet; input = [] }
recv (bytes s ∷ rest) len = record {
  answer = bytes (take len s);
  input = if leb (length s) len then rest else bytes (drop len s) ∷ rest;
}
recv (nothing_yet ∷ rest) len = record { answer = nothing_yet; input = rest }
recv (reset ∷ rest) len = record { answer = reset; input = rest }
recv (recv_error ∷ rest) len = record { answer = recv_error; input = rest }

abbrev pub quiet : Polled
quiet = record { failed = false; hup = false; input = false; bad = false; closed = false }

abbrev pub next_poll : List Polled → Polled
next_poll [] = quiet
next_poll (p ∷ ps) = p

abbrev pub polled : Channel → Channel
polled ch = record ch { sock = record ch.sock { polls = drop 1 ch.sock.polls } }

-- `mark <= qlen`, `qlen <= mark`, `mark < qlen`.
abbrev pub reaches : ℤ → ℕ → Bool
reaches (pos mark) qlen = leb mark qlen
reaches (negsuc n) qlen = true

abbrev pub within : ℕ → ℤ → Bool
within qlen (pos mark) = leb qlen mark
within qlen (negsuc n) = false

-- The calls that a new length of the queue leads to.
abbrev pub flow_calls : Channel → ℕ → ℕ → List Flow
flow_calls ch orig_qlen curr_qlen =
    let high =
      if reaches ch.high_flow_mark curr_qlen && ch.high_flow_callback then high_flow ∷ [] else [] in
    let low =
      if within curr_qlen ch.low_flow_mark
        && not (within orig_qlen ch.low_flow_mark)
        && ch.low_flow_callback
      then low_flow ∷ []
      else [] in
    high ++ low

unfoldable pub socket_check_flow_control : Channel → ℕ → ℕ → Channel
socket_check_flow_control ch orig_qlen curr_qlen =
    if is_rconn ch.ch_status
    then record ch { flows = ch.flows ++ flow_calls ch orig_qlen curr_qlen }
    else ch

-- `socket_set_high_flow_callback`, `socket_set_low_flow_callback`, and the bounds of the queues, less
-- the sizes of the socket's buffers.
abbrev pub socket_set_high_flow_callback : Channel → Bool → Channel
socket_set_high_flow_callback ch callback = record ch { high_flow_callback = callback }

abbrev pub socket_set_low_flow_callback : Channel → Bool → Channel
socket_set_low_flow_callback ch callback = record ch { low_flow_callback = callback }

abbrev pub socket_set_send_qlen : Channel → ℕ → Channel
socket_set_send_qlen ch q_len = record ch { send_queue = record ch.send_queue { max_qlen = q_len } }

abbrev pub socket_set_recv_qlen : Channel → ℕ → Channel
socket_set_recv_qlen ch q_len = record ch { recv_queue = record ch.recv_queue { max_qlen = q_len } }
