-- ===== src/Ipc/Writing.antt =====
-- `socket_resume_io_write` of lib/clplumbing/ipcsocket.c, whatever the system answers: the bytes that
-- are sent and those that are to be sent stay the frames of the messages in their order.
use cluster_glue_import.Prelude.{
  ℕ, zero, suc, ◌+◌, ◌<◌, ◌≤◌, ◌≡◌, refl, ap, ◌∙◌, subst, inl, inr, Bool-cases, Option-cases,
  List-cases, true, false, ◌&&◌, List, ◌∷◌, none, some, ltb, ◌==◌, length, All, arith,
}
use cluster_glue_import.Message.{done}
use cluster_glue_import.Ipc.{Message, is_ok, is_wconn, disconnect, disc_pending}
use cluster_glue_import.Ipc.Channel.{Sent, taken, no_space, epipe, send_error, Channel}
use cluster_glue_import.Ipc.Read.{set_status, read_of, socket_resume_io_read}
use cluster_glue_import.Ipc.Write.{
  with_headroom, wire_of, Sending, send_loop, dequeue, Written, on_send_error, to_send, sent_of,
  after_send, next_message, write_loop, write_returned, socket_resume_io_write,
}
use cluster_glue_import.Ipc.Yields.{Yields, yields, Yields-bind, Yields-weaken}
use cluster_glue_import.Ipc.Frames.{frame}
use cluster_glue_import.Ipc.Owes.{Owes, outgoing}
use cluster_glue_import.Ipc.Answers.{disc_pending_lem}
use cluster_glue_import.Ipc.Reading.{resume_io_read_lem}
use cluster_glue_import.Ipc.Unsent.{
  Ready, Within, SentOf, wire_of-Ready, send_loop_lem, to_send-split,
}
use cluster_glue_import.Ipc.Steps.{Steps, status_Steps, trans_Steps, Reading-Steps}
use cluster_glue_import.Ipc.Sending.{sent_part, sent_whole}

-- The loop over the messages, after which `n` messages more are gone.
pub record Writing (future : List ℕ) (ms given : List (List ℕ)) (ch : Channel) (n : ℕ) (w : Written)
    : Type 0 where
  pub steps : Steps future ms given ch w.channel
  pub count : length w.channel.send_queue.queue + w.nmsg ≤ length ch.send_queue.queue + n

-- A round of the loop.
module _ (fuel : ℕ) (ch : Channel) (n : ℕ) (msg : Message) (rest : List Message) (wire : List ℕ)
    (busy : (is_wconn ch.ch_status && ltb 0 ch.send_queue.current_qlen) ≡ true)
    (q : ch.send_queue.queue ≡ msg ∷ rest) (ready : wire_of (with_headroom msg) ≡ done wire)
    (s : Sending)
    (same : send_loop ch.sock ch.sock.sends (to_send ch.bytes_remaining wire) ≡ s) where
  round : write_loop (suc fuel) ch n ≡ after_send (write_loop fuel) ch rest s n
  unfolding write_loop
  round = rw busy (ap (next_message (write_loop fuel) ch n) q ∙ rw (ready, same))

  round_error :
      (e : Sent) → s.error ≡ some e → write_loop (suc fuel) ch n ≡ on_send_error (sent_of ch s) e n
  round_error e err = round ∙ rw err

  round_whole :
      s.error ≡ none
      → (length s.rest == 0) ≡ true
      → write_loop (suc fuel) ch n ≡ write_loop fuel (dequeue (sent_of ch s) rest) (suc n)
  round_whole fine whole = round ∙ rw (fine, whole)

  round_part :
      s.error ≡ none
      → (length s.rest == 0) ≡ false
      → write_loop (suc fuel) ch n ≡ write_loop fuel (sent_of ch s) n
  round_part fine part = round ∙ rw (fine, part)

module _ (future : List ℕ) (ms given : List (List ℕ)) where
  -- An error of `send` ends the loop.
  send_error_lem :
      (ch : Channel) (e : Sent) (n : ℕ)
      → Owes future ch ms
      → SentOf given (outgoing ch)
      → Yields (Writing future ms given ch n) (on_send_error ch e n)
  unfolding on_send_error
  send_error_lem ch epipe n o g =
      Yields-bind
        (disc_pending_lem future ms (suc (length ch.sock.input))
          (λ ch'. socket_resume_io_read ch' false)
          (λ ch' o' _. resume_io_read_lem future ms ch' false o') (set_status ch disc_pending) o
          (omega arith))
        (λ c r. yields (
          let st = Reading-Steps future ms given (set_status ch disc_pending) (read_of 0 c) r g in
          record {
            steps = record {
              owes = st.owes;
              sent = st.sent;
              taken = st.taken;
              shorter = st.shorter;
              blocks = st.blocks;
            };
            count = omega (arith, st.shorter);
          }))
  send_error_lem ch send_error n o g =
      yields
        (record { steps = status_Steps future ms given ch disconnect o g; count = omega arith })
  send_error_lem ch no_space n o g =
      yields
        (record { steps = status_Steps future ms given ch ch.ch_status o g; count = omega arith })
  send_error_lem ch (taken k) n o g =
      yields
        (record { steps = status_Steps future ms given ch ch.ch_status o g; count = omega arith })

  -- The loop goes on from `b`.
  go_on :
      (a b : Channel) (n k : ℕ) (w : Written)
      → Steps future ms given a b
      → length b.send_queue.queue + k ≤ length a.send_queue.queue + n
      → Writing future ms given b k w
      → Writing future ms given a n w
  go_on a b n k w s le h = record {
    steps = trans_Steps future ms given a b w.channel s h.steps;
    count = omega (arith, h.count);
  }

  write_loop_lem :
      (fuel : ℕ) (ch : Channel) (n : ℕ)
      → Owes future ch ms
      → SentOf given (outgoing ch)
      → length ch.sock.sends < fuel
      → Yields (Writing future ms given ch n) (write_loop fuel ch n)
  unfolding write_loop
  write_loop_lem zero ch n o g lt = absurd (omega arith)
  write_loop_lem (suc fuel) ch n o g lt =
      elim (Bool-cases (is_wconn ch.ch_status && ltb 0 ch.send_queue.current_qlen)) [
        | inr idle ↦ rw idle (
            yields (record {
              steps = status_Steps future ms given ch ch.ch_status o g;
              count = omega arith;
            }))
        | inl busy ↦ elim (List-cases ch.send_queue.queue) [
          | inl empty ↦ absurd (ground (arith, g.counted, ap length empty))
          | inr (msg, rest, q) ↦
              let wire = wire_of-Ready msg (subst (λ m. All Ready m) q g.ready).0 in
              let s =
                send_loop ch.sock ch.sock.sends (to_send ch.bytes_remaining (frame msg.body)) in
              let (_, _, some_bytes) =
                to_send-split ch.bytes_remaining (frame msg.body)
                  (omega (arith, subst (λ m. Within m ch.bytes_remaining) q g.within))
                  (omega arith) in
              let l = send_loop_lem ch.sock ch.sock.sends _ some_bytes in
              elim (Option-cases s.error) [
                | inr (e, err) ↦
                    let step = sent_part future ms given ch msg rest s o g q l (l.left (rw err)) in
                    rw (round_error fuel ch n msg rest _ busy q wire s refl e err) (
                      Yields-weaken (λ w h. go_on ch (sent_of ch s) n n w step (omega arith) h)
                        (send_error_lem (sent_of ch s) e n step.owes step.sent))
                | inl fine ↦ elim (Bool-cases (length s.rest == 0)) [
                  | inl whole ↦
                      let (step, fewer, sends) =
                        sent_whole future ms given ch msg rest s o g q l (ground arith) in
                      rw (round_whole fuel ch n msg rest _ busy q wire s refl fine whole) (
                        Yields-weaken (λ w h. go_on ch _ n (suc n) w step (omega (arith, fewer)) h)
                          (write_loop_lem fuel _ (suc n) step.owes step.sent
                            (omega (arith, l.used (rw fine), ap length sends))))
                  | inr part ↦
                      let step = sent_part future ms given ch msg rest s o g q l (ground arith) in
                      rw (round_part fuel ch n msg rest _ busy q wire s refl fine part) (
                        Yields-weaken (λ w h. go_on ch _ n n w step (omega arith) h)
                          (write_loop_lem fuel _ n step.owes step.sent
                            (omega (arith, l.used (rw fine)))))
                ]
              ]
        ]
      ]

  returned_lem :
      (ch : Channel) (w : Written)
      → Writing future ms given ch 0 w
      → Writing future ms given ch 0 (write_returned w)
  returned_lem ch w h = elim (Bool-cases (is_ok w.rc)) [
    | inl e ↦ rw e (record { steps = h.steps; count = h.count })
    | inr e ↦ rw e (record { steps = h.steps; count = h.count })
  ]

  -- A call of `socket_resume_io_write`.
  pub resume_io_write_lem :
      (ch : Channel)
      → Owes future ch ms
      → SentOf given (outgoing ch)
      → Yields (Writing future ms given ch 0) (socket_resume_io_write ch)
  unfolding socket_resume_io_write
  resume_io_write_lem ch o g =
      Yields-bind (write_loop_lem (suc (length ch.sock.sends)) ch 0 o g (omega arith))
        (λ w h. yields (returned_lem ch w h))
