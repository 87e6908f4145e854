-- ===== src/Ipc.antt =====
-- lib/clplumbing/ipcsocket.c and ocf_ipc.c, with include/clplumbing/ipc.h: the channels between
-- processes. Memory is at hand. A structure is laid out as on LP64 with the lowest byte first, and
-- without IPC_TIME_DEBUG. What recv(2), send(2) and poll(2) answer is a script in the socket.
pub mod Pool
pub mod Channel
pub mod Read
pub mod Write
pub mod Resume
pub mod Client
pub mod Yields
pub mod Frames
pub mod Update
pub mod Space
pub mod Owes
pub mod Answers
pub mod Reading
pub mod Unsent
pub mod Steps
pub mod Sending
pub mod Writing
pub mod Resuming
pub mod Giving
pub mod Fifo
pub mod Delivery
pub mod Progress
mod Tests
use cluster_glue_import.Prelude.{
  ℕ, ◌+◌, ◌*◌, ◌/◌, ◌%◌, ◌-◌, ◌^◌, Bool, true, false, List, [], ◌∷◌, ◌++◌, Option, ltb, length,
  take, if◌then◌else◌, get_or, ℤ, pos, negsuc,
}

-- IPC_CONNECT, IPC_WAIT, IPC_DISCONNECT and IPC_DISC_PENDING.
pub data Status : Type 0 where
  connect : Status
  wait : Status
  disconnect : Status
  disc_pending : Status

-- IPC_OK, IPC_FAIL and IPC_BROKEN.
pub data Rc : Type 0 where
  ipc_ok : Rc
  ipc_fail : Rc
  ipc_broken : Rc

abbrev pub is_ok : Rc → Bool
is_ok ipc_ok = true
is_ok _ = false

-- IPC_ISRCONN.
abbrev pub is_rconn : Status → Bool
is_rconn connect = true
is_rconn disc_pending = true
is_rconn _ = false

-- IPC_ISWCONN.
abbrev pub is_wconn : Status → Bool
is_wconn connect = true
is_wconn _ = false

abbrev pub is_disconnect : Status → Bool
is_disconnect disconnect = true
is_disconnect _ = false

abbrev pub is_disc_pending : Status → Bool
is_disc_pending disc_pending = true
is_disc_pending _ = false

abbrev pub default_max_qlen : ℕ
default_max_qlen = 64

abbrev pub maxmsg : ℕ
maxmsg = 256 * 1024

-- HEADMAGIC, 0xabcd.
abbrev pub headmagic : ℕ
headmagic = 43981

abbrev pub pool_size : ℕ
pool_size = 4 * 1024

-- The size of a `struct SOCKET_MSG_HEAD`, and of a `struct ipc_bufpool`.
abbrev pub msgpad : ℕ
msgpad = 8

abbrev pub bufpool_size : ℕ
bufpool_size = 48

abbrev pub int32 : ℕ → List ℕ
int32 n = n % 256 ∷ n / 256 % 256 ∷ n / 65536 % 256 ∷ n / 16777216 % 256 ∷ []

abbrev pub word : ℕ → ℕ → ℕ → ℕ → ℕ
word a b c d = a + 256 * b + 65536 * c + 16777216 * d

-- A 32-bit word as an int.
abbrev pub as_int : ℕ → ℤ
as_int n = if ltb n (2 ^ 31) then pos n else negsuc (2 ^ 32 - 1 - n)

-- A `struct SOCKET_MSG_HEAD` as its bytes, and its fields in the bytes that start with it.
abbrev pub head_bytes : ℕ → List ℕ
head_bytes msg_len = int32 msg_len ++ int32 headmagic

unfoldable pub msg_len_of : List ℕ → ℤ
msg_len_of s = as_int (word (get_or s 0 0) (get_or s 1 0) (get_or s 2 0) (get_or s 3 0))

unfoldable pub magic_of : List ℕ → ℕ
magic_of s = word (get_or s 4 0) (get_or s 5 0) (get_or s 6 0) (get_or s 7 0)

-- An outgoing message: what lies between `msg_buf`, if it is not NULL, and `msg_body`, and the
-- `msg_len` bytes of the body.
pub record Message : Type 0 where
  pub pad : Option (List ℕ)
  pub body : List ℕ

-- A queue of messages, with its counters.
pub record Queue {ℓ} (A : Type ℓ) : Type ℓ where
  pub queue : List A
  pub current_qlen : ℕ
  pub max_qlen : ℕ
  pub maxqlen_cnt : ℕ
  pub last_maxqlen_warn : ℕ

-- `socket_queue_new`.
abbrev pub socket_queue_new {ℓ} : (A : Type ℓ) → Queue A
socket_queue_new A = record {
  queue = [];
  current_qlen = 0;
  max_qlen = default_max_qlen;
  maxqlen_cnt = 0;
  last_maxqlen_warn = 0;
}
