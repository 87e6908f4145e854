-- ===== src/Ipc/Progress.antt =====
-- A read of lib/clplumbing/ipcsocket.c that finds bytes takes some of them: it never calls `recv`
-- without space, whose 0 would look like the end of the stream.
use cluster_glue_import.Prelude.{
  ℕ, zero, suc, ◌+◌, ◌<◌, ◌≤◌, ◌≡◌, refl, ap, ◌∙◌, sym, subst, inl, inr, Bool-cases, Bool, true,
  false, ◌&&◌, List, ◌∷◌, ◌++◌, append_assoc, ltb, ◌==◌, if◌then◌else◌, length, length-append, take,
  All, arith,
}
use cluster_glue_import.Message.{Result}
use cluster_glue_import.Ipc.{is_disconnect, is_ok}
use cluster_glue_import.Ipc.Pool.{Pool, ipc_bufpool_spaceleft}
use cluster_glue_import.Ipc.Channel.{Received, bytes, Channel, recv}
use cluster_glue_import.Ipc.Read.{
  Read, received_of, on_received, check_errors, read_fuel, socket_resume_io_read,
}
use cluster_glue_import.Ipc.Resume.{incoming}
use cluster_glue_import.Ipc.Yields.{Yields, yields, Yields-bind}
use cluster_glue_import.Ipc.Frames.{Small}
use cluster_glue_import.Ipc.Update.{Holds, ipc_bufpool_update_lem}
use cluster_glue_import.Ipc.Space.{pool_with_space_lem}
use cluster_glue_import.Ipc.Owes.{Owes, bytes_of, recv-incoming, recv-length}
use cluster_glue_import.Ipc.Reading.{at_hand}

abbrev pub Takes : Read → Type 0
Takes r = 0 < r.nbytes

-- `recv` with space.
some_bytes :
    (c : ℕ) (cs : List ℕ) (input : List Received) (len : ℕ)
    → 0 < len
    → (s : List ℕ) × ((recv (bytes (c ∷ cs) ∷ input) len).answer ≡ bytes (c ∷ s))
unfolding recv
some_bytes c cs input zero h = absurd (omega arith)
some_bytes c cs input (suc k) h = (take k cs, refl)

checked-Takes : (r : Read) → Takes r → Takes (check_errors r)
unfolding check_errors
checked-Takes r h = elim (Bool-cases (is_ok r.rc)) [ inl e ↦ rw e h | inr e ↦ rw e h ]

module _ (future : List ℕ) where
  received-Takes :
      (read : Channel → Result Read) (ch : Channel) (pool : Pool) (c : ℕ) (s : List ℕ)
      (todo : List (List ℕ)) (input : List Received)
      → Holds pool (c ∷ (s ++ (incoming input ++ future))) todo
      → pool.consumed + length (pool.pending ++ c ∷ s) ≤ pool.room
      → All Small todo
      → Yields Takes (on_received read (received_of ch pool input) pool (bytes (c ∷ s)))
  unfolding on_received
  received-Takes read ch pool c s todo input h fits small =
      Yields-bind (ipc_bufpool_update_lem _ pool (c ∷ s) ch.recv_queue todo h fits small)
        (λ u t. yields (rw t.count (omega arith)))

  -- On a channel that is not disconnected and owes its client the messages `ms`, with fewer messages
  -- in its queue than it may have, a read takes at least one byte if bytes are there.
  pub read-progress :
      (ms : List (List ℕ)) (ch : Channel) (read1anyway : Bool) (c : ℕ) (cs : List ℕ)
      (rest : List Received)
      → Owes future ch ms
      → is_disconnect ch.ch_status ≡ false
      → ch.recv_queue.current_qlen < ch.recv_queue.max_qlen
      → ch.sock.input ≡ bytes (c ∷ cs) ∷ rest
      → Yields Takes (socket_resume_io_read ch read1anyway)
  unfolding socket_resume_io_read read_fuel
  read-progress ms ch b c cs rest o on below inp =
      let (p, hand, h) = at_hand future ms ch.pool _ o.todo o.kept in
      let sp = pool_with_space_lem _ p o.todo h o.small in
      let len = ipc_bufpool_spaceleft sp.pool in
      let (s, answer) = some_bytes c cs rest len (omega (arith, sp.space)) in
      let answer' : (recv ch.sock.input len).answer ≡ bytes (c ∷ s) =
        ap (λ i. (recv i len).answer) inp ∙ answer in
      let here : ltb ch.recv_queue.current_qlen
            (if ch.recv_queue.max_qlen == 0 && b then 1 else ch.recv_queue.max_qlen)
          ≡ true =
        ground arith in
      let same =
        subst (λ a. bytes_of a ++ incoming (recv ch.sock.input len).input ≡ incoming ch.sock.input)
          answer' (recv-incoming ch.sock.input len) in
      let short = subst (λ a. length (bytes_of a) ≤ len) answer' (recv-length ch.sock.input len) in
      rw (on, hand, sp.same, here, answer')
        (Yields-bind
          (received-Takes _ ch sp.pool c s o.todo (recv ch.sock.input len).input
            (record {
              fits = sp.holds.fits;
              stream =
                  ap (λ l. sp.pool.pending ++ l)
                    (sym (append_assoc (c ∷ s) _ future) ∙ ap (λ l. l ++ future) same)
                  ∙ sp.holds.stream;
              short = sp.holds.short;
            })
            (omega (arith, length-append sp.pool.pending (c ∷ s), sp.space)) o.small)
          (λ r t. yields (checked-Takes r t)))
