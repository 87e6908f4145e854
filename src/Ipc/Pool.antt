-- ===== src/Ipc/Pool.antt =====
-- The receive buffers of lib/clplumbing/ocf_ipc.c. A pool is its bytes between `consumepos` and
-- `currpos`, the bytes before them, and the distance of `startpos` and `endpos`. A received message
-- is the bytes of its body, which are not written again.
use cluster_glue_import.Prelude.{
  ℕ, zero, suc, ◌+◌, ◌-◌, ◌^◌, Bool, true, false, ◌&&◌, ◌||◌, not, List, [], ◌∷◌, ◌++◌, Option,
  none, some, leb, ltb, ◌==◌, if◌then◌else◌, length, take, drop, pos, negsuc,
}
use cluster_glue_import.Message.{Result, done, fault, unfinished}
use cluster_glue_import.Ipc.{
  maxmsg, headmagic, pool_size, msgpad, bufpool_size, msg_len_of, magic_of, Queue, Rc, ipc_ok,
  ipc_fail,
}

pub record Pool : Type 0 where
  pub consumed : ℕ
  pub pending : List ℕ
  pub room : ℕ

-- POOLHDR_SIZE.
abbrev pub poolhdr_size : ℕ
poolhdr_size = bufpool_size + 16

-- The sum as an int is negative from 2 ^ 31 on, which is less than POOL_SIZE.
abbrev pub totalsize : ℕ → ℕ
totalsize size =
    if leb (2 ^ 31) (size + poolhdr_size)
    then pool_size
    else if ltb (size + poolhdr_size) pool_size
    then pool_size
    else size + poolhdr_size

unfoldable pub ipc_bufpool_new : ℕ → Option Pool
ipc_bufpool_new size =
    if ltb (maxmsg + poolhdr_size) (totalsize size)
    then none
    else some (record { consumed = 0; pending = []; room = totalsize size - bufpool_size })

abbrev pub ipc_bufpool_spaceleft : Pool → ℕ
ipc_bufpool_spaceleft pool = pool.room - (pool.consumed + length pool.pending)

-- The pool and the queue after the new bytes, and the number of new messages; `none` is -1.
pub record Updated : Type 0 where
  pub pool : Pool
  pub rqueue : Queue (List ℕ)
  pub nmsgs : Option ℕ

-- The message of `msg_len` bytes at `consumepos` is taken.
abbrev pub consume : Pool → ℕ → Pool
consume pool msg_len = record pool {
  consumed = pool.consumed + (msgpad + msg_len);
  pending = drop msg_len (drop msgpad pool.pending);
}

abbrev pub enqueue : Queue (List ℕ) → List ℕ → Queue (List ℕ)
enqueue q m = record q { queue = q.queue ++ m ∷ []; current_qlen = suc q.current_qlen }

-- The loop of `ipc_bufpool_update`. A negative length passes its tests: the message then has a
-- body of nearly 2 ^ 64 bytes.
unfoldable pub update_loop : ℕ → Pool → Queue (List ℕ) → ℕ → Result Updated
update_loop zero pool rqueue nmsgs = unfinished
update_loop (suc fuel) pool rqueue nmsgs =
    if ltb (length pool.pending) msgpad
    then done (record { pool = pool; rqueue = rqueue; nmsgs = some nmsgs })
    else if not (magic_of pool.pending == headmagic)
    then done (record { pool = pool; rqueue = rqueue; nmsgs = none })
    else elim (msg_len_of pool.pending) [
      | negsuc n ↦ fault
      | pos msg_len ↦
          let rest =
            update_loop fuel (consume pool msg_len)
              (enqueue rqueue (take msg_len (drop msgpad pool.pending))) (suc nmsgs) in
          if ltb maxmsg msg_len || ltb (length pool.pending) (msgpad + msg_len)
          then done (record { pool = pool; rqueue = rqueue; nmsgs = some nmsgs })
          else rest
    ]

-- A message takes eight bytes at least.
unfoldable pub ipc_bufpool_update : Pool → List ℕ → Queue (List ℕ) → Result Updated
ipc_bufpool_update pool new rqueue =
    update_loop (suc (length (pool.pending ++ new))) (record pool { pending = pool.pending ++ new })
      rqueue 0

-- Whether the pool is full, and `dataspaceneeded`. Behind a header of a negative length there is
-- space, since there is space for the header.
unfoldable pub ipc_bufpool_full : Pool → Bool × ℕ
ipc_bufpool_full pool =
    if ltb (pool.room - pool.consumed) msgpad
    then (true, 0)
    else if leb msgpad (length pool.pending)
    then elim (msg_len_of pool.pending) [
      | negsuc n ↦ (false, 0)
      | pos msg_len ↦
          if leb pool.room (pool.consumed + msgpad + msg_len) then (true, msg_len) else (false, 0)
    ]
    else (false, 0)

-- Whether `space_needed`, which is an int, is more than the space that is left.
unfoldable pub needs_more : List ℕ → ℕ → Bool
needs_more pending left = elim (msg_len_of pending) [
  | negsuc n ↦ ltb n msgpad && ltb left (msgpad - suc n)
  | pos msg_len ↦ ltb (msg_len + msgpad) (2 ^ 31) && ltb left (msg_len + msgpad)
]

unfoldable pub ipc_bufpool_partial_copy : Pool → Pool → Pool × Rc
ipc_bufpool_partial_copy dst src =
    if leb msgpad (length src.pending) && needs_more src.pending (ipc_bufpool_spaceleft dst)
    then (dst, ipc_fail)
    else (record dst { pending = src.pending }, ipc_ok)
