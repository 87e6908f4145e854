-- ===== src/Ipc/Reading.antt =====
-- `socket_resume_io_read` of lib/clplumbing/ipcsocket.c, whatever the system answers: it neither
-- loses nor reorders nor makes up messages.
use cluster_glue_import.Prelude.{
  ℕ, zero, suc, ◌+◌, ◌<◌, ◌≤◌, ◌≡◌, refl, ap, ◌∙◌, sym, inl, inr, Bool-cases, Bool, false, ◌&&◌,
  List, [], ◌∷◌, ◌++◌, append_assoc, Option, none, some, if◌then◌else◌, length, length-append, All,
  arith, ltb, ◌==◌,
}
use cluster_glue_import.Message.{Result}
use cluster_glue_import.Ipc.{Status, disc_pending, disconnect, is_disconnect, is_ok}
use cluster_glue_import.Ipc.Pool.{Pool, ipc_bufpool_spaceleft}
use cluster_glue_import.Ipc.Channel.{Polled, Channel, recv, next_poll, polled}
use cluster_glue_import.Ipc.Read.{
  set_status, Read, socket_check_poll, pool_at_hand, receive, check_errors, read_fuel,
  socket_resume_io_read,
}
use cluster_glue_import.Ipc.Resume.{incoming}
use cluster_glue_import.Ipc.Yields.{Yields, yields, Yields-bind}
use cluster_glue_import.Ipc.Frames.{Small}
use cluster_glue_import.Ipc.Update.{Short, Holds}
use cluster_glue_import.Ipc.Space.{new_pool, pool_with_space_lem}
use cluster_glue_import.Ipc.Owes.{
  Kept, Owes, Reading, bytes_of, recv-incoming, recv-length, recv-reset,
}
use cluster_glue_import.Ipc.Answers.{still, owed, on_received_lem}

Short-empty : (todo : List (List ℕ)) → Short [] todo
Short-empty [] = refl
Short-empty (m ∷ ms) = omega arith

check_poll-status :
    (ch : Channel) (p : Polled)
    → (s : Status) × ((socket_check_poll ch p).channel ≡ set_status ch s)
unfolding socket_check_poll
check_poll-status ch p = elim (Bool-cases (is_disconnect ch.ch_status)) [
  | inl e ↦ (ch.ch_status, rw e)
  | inr e ↦ elim (Bool-cases p.hup) [
    | inl f ↦ (disc_pending, rw (e, f))
    | inr f ↦ elim (Bool-cases p.bad) [
      | inl g ↦ elim (Bool-cases p.closed) [
        | inl k ↦ (disconnect, rw (e, f, g, k))
        | inr k ↦ (ch.ch_status, rw (e, f, g, k))
      ]
      | inr g ↦ (ch.ch_status, rw (e, f, g))
    ]
  ]
]

module _ (future : List ℕ) (ms : List (List ℕ)) where
  module _ (fuel : ℕ) (read : Channel → Result Read)
      (reads : (ch : Channel)
        → Owes future ch ms
        → length ch.sock.input < fuel
        → Yields (Reading future ms ch) (read ch)) where
    receive_lem :
        (ch : Channel) (pool : Pool) (todo : List (List ℕ)) (read1anyway : Bool)
        → ms ≡ ch.recv_queue.queue ++ todo
        → All Small todo
        → ch.recv_queue.current_qlen ≡ length ch.recv_queue.queue
        → Holds pool (incoming ch.sock.input ++ future) todo
        → pool.consumed + length pool.pending < pool.room
        → length ch.sock.input ≤ fuel
        → Yields (Reading future ms ch) (receive read ch pool read1anyway)
    receive_lem ch pool todo read1anyway split small counted h space le =
        let len = ipc_bufpool_spaceleft pool in
        let r = recv ch.sock.input len in
        let same = recv-incoming ch.sock.input len in
        let maxqlen =
          if ch.recv_queue.max_qlen == 0 && read1anyway then 1 else ch.recv_queue.max_qlen in
        elim (Bool-cases (ltb ch.recv_queue.current_qlen maxqlen)) [
          | inl e ↦ rw e (
              on_received_lem future ms fuel read reads ch pool todo r.input split small counted
                r.answer
                (record {
                  fits = h.fits;
                  stream =
                      ap (λ l. pool.pending ++ l)
                        (sym (append_assoc (bytes_of r.answer) _ future)
                          ∙ ap (λ l. l ++ future) same)
                      ∙ h.stream;
                  short = h.short;
                })
                (omega (
                  arith,
                  length-append pool.pending (bytes_of r.answer),
                  recv-length ch.sock.input len,
                ))
                (omega (arith, ap length same))
                (λ eq. omega (arith, recv-reset ch.sock.input len eq)))
          | inr e ↦ rw e (
              yields (record {
                owes =
                    owed future ms fuel read reads ch pool todo ch.sock.input split small counted h;
                taken = omega arith;
                same_out = refl;
              }))
        ]

  -- The check for errors changes the status and the polls alone.
  checked :
      (ch : Channel) (r : Read) → Reading future ms ch r → Reading future ms ch (check_errors r)
  unfolding check_errors
  checked ch r h = elim (Bool-cases (is_ok r.rc)) [
    | inl e ↦
        let ch' = polled r.channel in
        let (s, same) = check_poll-status ch' (next_poll r.channel.sock.polls) in
        rw (e, same) (record { owes = h.owes; taken = h.taken; same_out = h.same_out })
    | inr e ↦ rw e h
  ]

  -- The pool that is there, or the first one.
  pub at_hand :
      (o : Option Pool) (s : List ℕ) (todo : List (List ℕ))
      → Kept o s todo
      → (pool : Pool) × (pool_at_hand o ≡ some pool) × Holds pool s todo
  at_hand (some pool) s todo k = (pool, refl, k)
  at_hand none s todo k =
      let (room, new, _) = new_pool 0 (omega arith) in
      (_, new, record { fits = omega arith; stream = k; short = Short-empty todo })

  pub read_fuel_lem :
      (fuel : ℕ) (ch : Channel) (read1anyway : Bool)
      → Owes future ch ms
      → length ch.sock.input < fuel
      → Yields (Reading future ms ch) (read_fuel fuel ch read1anyway)
  unfolding read_fuel
  read_fuel_lem zero ch b o lt = absurd (omega arith)
  read_fuel_lem (suc fuel) ch b o lt = elim (Bool-cases (is_disconnect ch.ch_status)) [
    | inl e ↦ rw e (yields (still future ms ch ch.sock.polls ch.ch_status _ o))
    | inr e ↦
        let (p, hand, h) = at_hand ch.pool _ o.todo o.kept in
        let sp = pool_with_space_lem _ p o.todo h o.small in
        rw (e, hand, sp.same)
          (Yields-bind
            (receive_lem fuel (λ ch'. read_fuel fuel ch' false)
              (λ ch' o' lt'. read_fuel_lem fuel ch' false o' lt') ch sp.pool o.todo b o.split
              o.small o.counted sp.holds sp.space (omega arith))
            (λ r h'. yields (checked ch r h')))
  ]

  -- A read of `socket_resume_io_read` neither loses nor reorders nor makes up messages.
  pub resume_io_read_lem :
      (ch : Channel) (read1anyway : Bool)
      → Owes future ch ms
      → Yields (Reading future ms ch) (socket_resume_io_read ch read1anyway)
  unfolding socket_resume_io_read
  resume_io_read_lem ch b o = read_fuel_lem (suc (length ch.sock.input)) ch b o (omega arith)
