-- ===== src/Ipc/Update.antt =====
-- The messages that `ipc_bufpool_update` of lib/clplumbing/ocf_ipc.c takes out of a stream.
use cluster_glue_import.Prelude.{
  ℕ, zero, suc, ◌+◌, ◌<◌, ◌≤◌, ◌≡◌, refl, ap, ◌∙◌, List, [], ◌∷◌, ◌++◌, append_assoc, append-nil,
  some, length, length-append, take, drop, All, pos, arith,
}
use native.Mathlib.Decide.{dec_lt}
use cluster_glue_import.Message.{done}
use cluster_glue_import.Ipc.{maxmsg, msgpad, headmagic, msg_len_of, magic_of, Queue}
use cluster_glue_import.Ipc.Pool.{Pool, Updated, consume, enqueue, update_loop, ipc_bufpool_update}
use cluster_glue_import.Ipc.Yields.{Yields, yields, Yields-weaken}
use cluster_glue_import.Ipc.Frames.{
  frames, Small, first_msg_len, first_magic, whole_message, length-drop,
}

-- Less than the whole of the first message that is to come.
abbrev pub Short : List ℕ → List (List ℕ) → Type 0
Short p [] = length p ≡ 0
Short p (m ∷ ms) = length p < msgpad + length m

-- A pool that holds the beginning of the stream of the messages `todo`, of which `future` is not
-- there yet.
pub record Holds (pool : Pool) (future : List ℕ) (todo : List (List ℕ)) : Type 0 where
  pub fits : pool.consumed + length pool.pending ≤ pool.room
  pub stream : pool.pending ++ future ≡ frames todo
  pub short : Short pool.pending todo

-- The queue with more messages at its end.
abbrev pub with_messages : Queue (List ℕ) → List (List ℕ) → Queue (List ℕ)
with_messages q ms = record q { queue = q.queue ++ ms; current_qlen = q.current_qlen + length ms }

-- What an update makes of the queue `q`: it gets the messages that are complete.
pub record Took (q : Queue (List ℕ)) (n : ℕ) (future : List ℕ) (todo : List (List ℕ)) (u : Updated)
    : Type 0 where
  pub got : List (List ℕ)
  pub rest : List (List ℕ)
  pub split : todo ≡ got ++ rest
  pub rqueue : u.rqueue ≡ with_messages q got
  pub holds : Holds u.pool future rest
  pub count : u.nmsgs ≡ some (n + length got)

module _ (future : List ℕ) where
  nothing :
      (pool : Pool) (q : Queue (List ℕ)) (n : ℕ) (todo : List (List ℕ))
      → Holds pool future todo
      → Took q n future todo (record { pool = pool; rqueue = q; nmsgs = some n })
  nothing pool q n todo h = record {
    got = [];
    rest = todo;
    split = refl;
    rqueue = ground (arith, append-nil q.queue);
    holds = h;
    count = ground arith;
  }

  one_more :
      (q : Queue (List ℕ)) (m : List ℕ) (n : ℕ) (ms : List (List ℕ)) (u : Updated)
      → Took (enqueue q m) (suc n) future ms u
      → Took q n future (m ∷ ms) u
  one_more q m n ms u t = record {
    got = m ∷ t.got;
    rest = t.rest;
    split = ap (λ l. m ∷ l) t.split;
    rqueue = t.rqueue ∙ ground (arith, append_assoc q.queue (m ∷ []) t.got);
    holds = t.holds;
    count = t.count ∙ ground arith;
  }

  update_short :
      (fuel : ℕ) (pool : Pool) (q : Queue (List ℕ)) (n : ℕ)
      → length pool.pending < msgpad
      → update_loop (suc fuel) pool q n ≡ done (record { pool = pool; rqueue = q; nmsgs = some n })
  unfolding update_loop
  update_short fuel pool q n h = ground arith

  -- A header in order.
  module _ (fuel : ℕ) (pool : Pool) (q : Queue (List ℕ)) (n len : ℕ)
      (h : msgpad ≤ length pool.pending) (magic : magic_of pool.pending ≡ headmagic)
      (msg_len : msg_len_of pool.pending ≡ pos len) (small : len ≤ maxmsg) where
    update_waits :
        length pool.pending < msgpad + len
        → update_loop (suc fuel) pool q n
          ≡ done (record { pool = pool; rqueue = q; nmsgs = some n })
    unfolding update_loop
    update_waits lt = rw msg_len (ground arith)

    update_takes :
        msgpad + len ≤ length pool.pending
        → update_loop (suc fuel) pool q n
          ≡ update_loop fuel
              (consume pool len)
              (enqueue q (take len (drop msgpad pool.pending)))
              (suc n)
    unfolding update_loop
    update_takes le = rw msg_len (ground arith)

  update_loop_lem :
      (fuel : ℕ) (pool : Pool) (q : Queue (List ℕ)) (n : ℕ) (todo : List (List ℕ))
      → length pool.pending < fuel
      → pool.consumed + length pool.pending ≤ pool.room
      → pool.pending ++ future ≡ frames todo
      → All Small todo
      → Yields (Took q n future todo) (update_loop fuel pool q n)
  unfolding frames
  update_loop_lem zero pool q n todo lt fits e small = absurd (omega arith)
  update_loop_lem (suc fuel) pool q n [] lt fits e small =
      let none_left : length pool.pending ≡ 0 =
        omega (arith, length-append pool.pending future, ap length e) in
      rw (update_short fuel pool q n (omega arith))
        (yields (nothing pool q n [] (record { fits = fits; stream = e; short = none_left })))
  update_loop_lem (suc fuel) pool q n (m ∷ ms) lt fits e (s, ss) =
      let p = pool.pending in
      let len = length m in
      let wait : length p < msgpad + len
          → Yields (Took q n future (m ∷ ms))
              (done (record { pool = pool; rqueue = q; nmsgs = some n })) =
        λ short.
          yields (nothing pool q n (m ∷ ms) (record { fits = fits; stream = e; short = short })) in
      elim (dec_lt (length p) msgpad) [
        | yes few ↦ rw (update_short fuel pool q n few) (wait (omega arith))
        | no more ↦
            let magic = first_magic p future (frames ms) m e (omega arith) in
            let msg_len = first_msg_len p future (frames ms) m e (omega arith) s in
            elim (dec_lt (length p) (msgpad + len)) [
              | yes few ↦
                  rw (update_waits fuel pool q n len (omega arith) magic msg_len s few) (wait few)
              | no all ↦
                  let (body, rest) = whole_message p future (frames ms) m e (omega arith) in
                  let less =
                    length-drop len (drop msgpad p)
                      (omega (arith, length-drop msgpad p (omega arith))) in
                  let less' = length-drop msgpad p (omega arith) in
                  rw
                    (
                      update_takes fuel pool q n len (omega arith) magic msg_len s (omega arith),
                      body,
                    )
                    (Yields-weaken (one_more q m n ms) (
                      update_loop_lem fuel (consume pool len) (enqueue q m) (suc n) ms (omega arith)
                        (omega arith) rest ss))
            ]
      ]

  -- If a pool holds the beginning of the frames of `todo`, which the new bytes and `future` continue,
  -- the new bytes fit, and no message is longer than MAXMSG, then `ipc_bufpool_update` ends, appends to
  -- the queue the messages whose last byte is there, in their order, and leaves less than a message in
  -- the pool, which is continued by `future` to the frames of the others.
  pub ipc_bufpool_update_lem :
      (pool : Pool) (new : List ℕ) (q : Queue (List ℕ)) (todo : List (List ℕ))
      → Holds pool (new ++ future) todo
      → pool.consumed + length (pool.pending ++ new) ≤ pool.room
      → All Small todo
      → Yields (Took q 0 future todo) (ipc_bufpool_update pool new q)
  unfolding ipc_bufpool_update
  ipc_bufpool_update_lem pool new q todo h fits small =
      update_loop_lem (suc (length (pool.pending ++ new)))
        (record pool { pending = pool.pending ++ new }) q 0 todo (omega arith) fits
        (append_assoc pool.pending new future ∙ h.stream) small
