-- ===== src/Ipc/Space.antt =====
-- A pool that is read into has space, and loses nothing by the change to a new one:
-- `ipc_bufpool_full`, `ipc_bufpool_new` and `ipc_bufpool_partial_copy` of
-- lib/clplumbing/ocf_ipc.c as lib/clplumbing/ipcsocket.c calls them.
use cluster_glue_import.Prelude.{
  ℕ, ◌+◌, ◌*◌, ◌-◌, ◌<◌, ◌≤◌, ◌≡◌, true, false, ◌&&◌, leb, List, [], ◌∷◌, Option, some, length, All,
  pos, arith,
}
use native.Mathlib.Decide.{dec_lt}
use cluster_glue_import.Ipc.{maxmsg, msgpad, msg_len_of}
use cluster_glue_import.Ipc.Pool.{
  Pool, ipc_bufpool_new, ipc_bufpool_full, ipc_bufpool_partial_copy, ipc_bufpool_spaceleft,
  needs_more,
}
use cluster_glue_import.Ipc.Read.{copied_to, pool_with_space}
use cluster_glue_import.Ipc.Frames.{frames, Small, first_msg_len}
use cluster_glue_import.Ipc.Update.{Holds}

-- A pool with space for a byte at least, from which `recv` does not read 0 bytes for want of space.
pub record Spacious (future : List ℕ) (todo : List (List ℕ)) (o : Option Pool) : Type 0 where
  pub pool : Pool
  pub same : o ≡ some pool
  pub holds : Holds pool future todo
  pub space : pool.consumed + length pool.pending < pool.room

-- A new pool has space for a message of `size` bytes with its header, and for another header.
pub new_pool :
    (size : ℕ)
    → size ≤ maxmsg
    → (room : ℕ) × (ipc_bufpool_new size
        ≡ some (record { consumed = 0; pending = []; room = room }))
      × (size + 2 * msgpad ≤ room)
unfolding ipc_bufpool_new
new_pool size h = elim (dec_lt (size + 64) 4096) [
  | yes small ↦ (4048, ground arith, omega arith)
  | no big ↦ (size + 64 - 48, ground arith, omega arith)
]

copied :
    (dst src : Pool)
    → (leb msgpad (length src.pending) && needs_more src.pending (ipc_bufpool_spaceleft dst))
      ≡ false
    → copied_to (some dst) src ≡ some (record dst { pending = src.pending })
unfolding ipc_bufpool_partial_copy
copied dst src h = rw h

enough_space :
    (pending : List ℕ) (left size : ℕ)
    → msg_len_of pending ≡ pos size
    → size + msgpad ≤ left
    → needs_more pending left ≡ false
unfolding needs_more
enough_space pending left size len h = rw (needs_more, len) (ground arith)

module _ (future : List ℕ) where
  -- A full pool whose contents are moved.
  moved :
      (pool : Pool) (todo : List (List ℕ)) (size : ℕ)
      → Holds pool future todo
      → ipc_bufpool_full pool ≡ (true, size)
      → size ≤ maxmsg
      → length pool.pending < size + msgpad
      → (msgpad ≤ length pool.pending → msg_len_of pool.pending ≡ pos size)
      → Spacious future todo (pool_with_space pool)
  unfolding pool_with_space
  moved pool todo size h full small short len =
      let (room, new, enough) = new_pool size small in
      let new_one : Pool = record { consumed = 0; pending = []; room = room } in
      elim (dec_lt (length pool.pending) msgpad) [
        | yes few ↦ record {
          pool = record { consumed = 0; pending = pool.pending; room = room };
          same = rw (full, new, copied new_one pool (ground arith));
          holds = record { fits = omega arith; stream = h.stream; short = h.short };
          space = omega arith;
        }
        | no head ↦ record {
          pool = record { consumed = 0; pending = pool.pending; room = room };
          same = rw (
            full,
            new,
            copied new_one pool (
                ground
                  (arith, enough_space pool.pending room size (len (omega arith)) (omega arith))),
          );
          holds = record { fits = omega arith; stream = h.stream; short = h.short };
          space = omega arith;
        }
      ]

  kept :
      (pool : Pool) (todo : List (List ℕ))
      → Holds pool future todo
      → ipc_bufpool_full pool ≡ (false, 0)
      → pool.consumed + length pool.pending < pool.room
      → Spacious future todo (pool_with_space pool)
  unfolding pool_with_space
  kept pool todo h roomy space = record { pool = pool; same = rw roomy; holds = h; space = space }

  with_header :
      (pool : Pool) (todo : List (List ℕ))
      → Holds pool future todo
      → All Small todo
      → pool.consumed + msgpad ≤ pool.room
      → msgpad ≤ length pool.pending
      → Spacious future todo (pool_with_space pool)
  unfolding ipc_bufpool_full frames
  with_header pool [] h small room head = absurd (omega (arith, h.short))
  with_header pool (m ∷ ms) h (s, ss) room head =
      let len = first_msg_len pool.pending future (frames ms) m h.stream head s in
      elim (dec_lt (pool.consumed + msgpad + length m) pool.room) [
        | yes lt ↦
            kept pool (m ∷ ms) h (rw (ipc_bufpool_full, len) (ground arith))
              (omega (arith, h.short))
        | no ge ↦
            moved pool (m ∷ ms) (length m) h (rw (ipc_bufpool_full, len) (ground arith)) s
              (omega (arith, h.short)) (λ _. len)
      ]

  -- If a pool holds the beginning of the frames of `todo`, none longer than MAXMSG, then a pool for the
  -- next read is found: the same one, or a new one if it is full, with space for a byte at least, and
  -- it holds the same beginning.
  pub pool_with_space_lem :
      (pool : Pool) (todo : List (List ℕ))
      → Holds pool future todo
      → All Small todo
      → Spacious future todo (pool_with_space pool)
  unfolding ipc_bufpool_full
  pool_with_space_lem pool todo h small = elim (dec_lt (pool.room - pool.consumed) msgpad) [
    | yes few ↦
        moved pool todo 0 h (ground arith) (omega arith) (omega (arith, h.fits))
          (λ ge. absurd (omega (arith, h.fits)))
    | no some_room ↦ elim (dec_lt (length pool.pending) msgpad) [
      | yes short ↦ kept pool todo h (ground arith) (omega (arith, h.fits))
      | no head ↦ with_header pool todo h small (omega arith) (omega arith)
    ]
  ]
