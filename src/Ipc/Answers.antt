-- ===== src/Ipc/Answers.antt =====
-- What `recv` and `poll` answer to a channel of lib/clplumbing/ipcsocket.c, and what it makes of it.
use cluster_glue_import.Prelude.{
  ℕ, ◌+◌, ◌<◌, ◌≤◌, ◌≡◌, refl, ap, ◌∙◌, sym, subst, inl, inr, Bool-cases, ◌&&◌, ◌||◌, not, List, [],
  ◌∷◌, ◌++◌, append_assoc, length, length-append, All, arith, ltb,
}
use cluster_glue_import.Message.{Result}
use cluster_glue_import.Ipc.{Status, Rc, disc_pending, disconnect, is_disconnect, is_disc_pending}
use cluster_glue_import.Ipc.Pool.{Pool, Updated}
use cluster_glue_import.Ipc.Channel.{
  Received, bytes, nothing_yet, reset, recv_error, Polled, Channel, next_poll,
}
use cluster_glue_import.Ipc.Read.{
  set_status, outcome, Read, read_of, read_ignored, socket_check_disc_pending, received_of,
  updated_of, on_received,
}
use cluster_glue_import.Ipc.Resume.{incoming}
use cluster_glue_import.Ipc.Yields.{Yields, yields, Yields-bind}
use cluster_glue_import.Ipc.Frames.{Small}
use cluster_glue_import.Ipc.Update.{Holds, Took, ipc_bufpool_update_lem}
use cluster_glue_import.Ipc.Owes.{Owes, Reading, bytes_of}

All-rest : (xs ys : List (List ℕ)) → All Small (xs ++ ys) → All Small ys
All-rest [] ys h = h
All-rest (x ∷ xs) ys (_, h) = All-rest xs ys h

module _ (future : List ℕ) (ms : List (List ℕ)) where
  -- Nothing but the status and the polls has changed.
  pub still :
      (ch : Channel) (ps : List Polled) (s : Status) (rc : Rc)
      → Owes future ch ms
      → Reading future ms ch (
          read_of 0
            (outcome (record ch { ch_status = s; sock = record ch.sock { polls = ps } }) rc))
  still ch ps s rc o = record { owes = o; taken = omega arith; same_out = refl }

  module _ (fuel : ℕ) (read : Channel → Result Read)
      (reads : (ch : Channel)
        → Owes future ch ms
        → length ch.sock.input < fuel
        → Yields (Reading future ms ch) (read ch)) where
    read_on :
        (ch : Channel) (ps : List Polled) (s : Status)
        → Owes future ch ms
        → length ch.sock.input < fuel
        → Yields
            (λ o. Reading future ms ch (read_of 0 o))
            (read_ignored
              (read (record ch { ch_status = s; sock = record ch.sock { polls = ps } })))
    read_on ch ps s o lt =
        Yields-bind (reads (record ch { ch_status = s; sock = record ch.sock { polls = ps } }) o lt)
          (λ r h.
            yields
              (record { owes = h.owes; taken = omega (arith, h.taken); same_out = h.same_out }))

    pub disc_pending_lem :
        (ch : Channel)
        → Owes future ch ms
        → length ch.sock.input < fuel
        → Yields (λ o. Reading future ms ch (read_of 0 o)) (socket_check_disc_pending read ch)
    unfolding socket_check_disc_pending
    disc_pending_lem ch o lt =
        let p = next_poll ch.sock.polls in
        elim (Bool-cases (is_disconnect ch.ch_status)) [
          | inl e ↦ rw e (yields (still ch ch.sock.polls ch.ch_status _ o))
          | inr e ↦ rw e (elim (Bool-cases (ltb 0 ch.recv_queue.current_qlen)) [
            | inl e' ↦ rw e' (yields (still ch ch.sock.polls ch.ch_status _ o))
            | inr e' ↦ rw e' (elim (Bool-cases (p.failed || (p.hup && not p.input))) [
              | inl f ↦ rw f (yields (still ch _ disconnect _ o))
              | inr f ↦ rw f (elim (Bool-cases p.input) [
                | inl g ↦ rw g (read_on ch _ _ o lt)
                | inr g ↦ rw g (yields (still ch _ ch.ch_status _ o))
              ])
            ])
          ])
        ]

    -- What `recv` answered, on a channel that owes the messages of its queue and `todo`.
    module _ (ch : Channel) (pool : Pool) (todo : List (List ℕ)) (input : List Received)
        (split : ms ≡ ch.recv_queue.queue ++ todo) (small : All Small todo)
        (counted : ch.recv_queue.current_qlen ≡ length ch.recv_queue.queue) where
      pub owed :
          Holds pool (incoming input ++ future) todo → Owes future (received_of ch pool input) ms
      owed h = record { todo = todo; split = split; small = small; counted = counted; kept = h }

      -- Nothing is read.
      no_bytes :
          (s : Status) (rc : Rc)
          → Holds pool (incoming input ++ future) todo
          → length (incoming input) ≤ length (incoming ch.sock.input)
          → Reading future ms ch (read_of 0 (outcome (set_status (received_of ch pool input) s) rc))
      no_bytes s rc h le = record { owes = owed h; taken = omega arith; same_out = refl }

      -- The new bytes are taken up.
      updated :
          (u : Updated) (n : ℕ)
          → Took ch.recv_queue 0 (incoming input ++ future) todo u
          → length (incoming input) + n ≤ length (incoming ch.sock.input)
          → Reading future ms ch (updated_of (received_of ch pool input) u n)
      updated u n t le = rw t.count (record {
        owes = record {
          todo = t.rest;
          split =
              split
              ∙ ap (λ l. ch.recv_queue.queue ++ l) t.split
              ∙ sym (append_assoc ch.recv_queue.queue t.got t.rest)
              ∙ sym (ap (λ q. q.queue ++ t.rest) t.rqueue);
          small = All-rest t.got t.rest (subst (λ l. All Small l) t.split small);
          counted =
              ap (λ q. q.current_qlen) t.rqueue
              ∙ omega (arith, counted, length-append ch.recv_queue.queue t.got)
              ∙ sym (ap (λ q. length q.queue) t.rqueue);
          kept = t.holds;
        };
        taken = le;
        same_out = refl;
      })

      pub on_received_lem :
          (answer : Received)
          → Holds pool (bytes_of answer ++ (incoming input ++ future)) todo
          → pool.consumed + length (pool.pending ++ bytes_of answer) ≤ pool.room
          → length (bytes_of answer ++ incoming input) ≤ length (incoming ch.sock.input)
          → (answer ≡ reset → length input < fuel)
          → Yields (Reading future ms ch) (on_received read (received_of ch pool input) pool answer)
      unfolding on_received
      on_received_lem (bytes []) h fits le lt =
          elim (Bool-cases (ltb 0 ch.recv_queue.current_qlen)) [
            | inl e ↦ rw e (yields (no_bytes disc_pending _ h le))
            | inr e ↦ rw e (yields (no_bytes disconnect _ h le))
          ]
      on_received_lem (bytes (c ∷ cs)) h fits le lt =
          Yields-bind (ipc_bufpool_update_lem _ pool (c ∷ cs) ch.recv_queue todo h fits small)
            (λ u t. yields (updated u _ t (omega (arith, length-append cs (incoming input)))))
      on_received_lem nothing_yet h fits le lt = elim (Bool-cases (is_disc_pending ch.ch_status)) [
        | inl e ↦ rw e (yields (no_bytes disconnect _ h le))
        | inr e ↦ rw e (yields (no_bytes ch.ch_status _ h le))
      ]
      on_received_lem reset h fits le lt =
          Yields-bind
            (disc_pending_lem (set_status (received_of ch pool input) disc_pending) (owed h)
              (lt refl))
            (λ o r.
              yields
                (record { owes = r.owes; taken = omega (arith, r.taken); same_out = r.same_out }))
      on_received_lem recv_error h fits le lt = yields (no_bytes disconnect _ h le)
