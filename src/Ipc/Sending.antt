-- ===== src/Ipc/Sending.antt =====
-- The first message of the queue in `socket_resume_io_write` of lib/clplumbing/ipcsocket.c: what is
-- sent of it, and what stays.
use cluster_glue_import.Prelude.{
  ℕ, ◌+◌, ◌-◌, ◌<◌, ◌≤◌, ◌≡◌, refl, ap, ◌∙◌, sym, subst, List, [], ◌∷◌, ◌++◌, append_assoc, map,
  length, length-append, All, arith,
}
use cluster_glue_import.Ipc.{Message}
use cluster_glue_import.Ipc.Channel.{Channel}
use cluster_glue_import.Ipc.Write.{Sending, without_first, dequeue, to_send, sent_of}
use cluster_glue_import.Ipc.Resume.{incoming}
use cluster_glue_import.Ipc.Frames.{frame, frames}
use cluster_glue_import.Ipc.Owes.{OwesOf, Owes, outgoing}
use cluster_glue_import.Ipc.Unsent.{
  body_of, Ready, unsent, Within, SentOf, Sends, to_send-rest, to_send-split,
}
use cluster_glue_import.Ipc.Steps.{Steps, flow_control-flows}

regroup : (o f r t : List ℕ) → (o ++ f) ++ (r ++ t) ≡ o ++ ((f ++ r) ++ t)
regroup o f r t = simp append_assoc

no_length : (s : List ℕ) → length s ≡ 0 → s ≡ []
no_length [] h = refl
no_length (c ∷ cs) h = absurd (omega arith)

unsent-zero : (q : List Message) → unsent q 0 ≡ frames (map body_of q)
unfolding frames
unsent-zero [] = refl
unsent-zero (m ∷ q) = refl

Within-zero : (q : List Message) → Within q 0
Within-zero [] = refl
Within-zero (m ∷ q) = omega arith

module _ (future : List ℕ) (ms given : List (List ℕ)) where
  -- The loop of `send` on the first message.
  module _ (ch : Channel) (msg : Message) (rest : List Message) (s : Sending)
      (o : Owes future ch ms) (g : SentOf given (outgoing ch))
      (q : ch.send_queue.queue ≡ msg ∷ rest)
      (l : Sends ch.sock ch.sock.sends (to_send ch.bytes_remaining (frame msg.body)) s) where
    same_input : Owes future (sent_of ch s) ms
    same_input = subst (λ i. OwesOf future ch.recv_queue ch.pool i ms) (sym l.input) o

    taken_none : length (incoming s.sock.input) ≤ length (incoming ch.sock.input)
    taken_none =
        subst (λ i. length (incoming i) ≤ length (incoming ch.sock.input)) (sym l.input)
          (omega arith)

    on_wire : ch.sock.output ++ ((l.front ++ s.rest) ++ frames (map body_of rest)) ≡ frames given
    on_wire =
        ap (λ p. ch.sock.output ++ (p ++ frames (map body_of rest))) (sym l.split)
        ∙ subst (λ m. ch.sock.output ++ unsent m ch.bytes_remaining ≡ frames given) q g.stream

    -- A part of the message is left.
    pub sent_part : 0 < length s.rest → Steps future ms given ch (sent_of ch s)
    sent_part h =
        let (x, front, _) =
          to_send-split ch.bytes_remaining (frame msg.body)
            (omega (arith, subst (λ m. Within m ch.bytes_remaining) q g.within)) (omega arith) in
        let w : frame msg.body ≡ (x ++ l.front) ++ s.rest =
          front ∙ ap (λ p. x ++ p) l.split ∙ sym (append_assoc x l.front s.rest) in
        record {
          owes = same_input;
          sent = record {
            stream =
                rw (q, l.output, to_send-rest (frame msg.body) _ s.rest w h)
                  (regroup ch.sock.output l.front s.rest _ ∙ on_wire);
            within = rw q (omega (arith, ap length w, length-append (x ++ l.front) s.rest));
            ready = g.ready;
            counted = g.counted;
            small = g.small;
          };
          taken = taken_none;
          shorter = omega arith;
          blocks = refl;
        }

    -- The whole message is sent.
    pub sent_whole :
        length s.rest ≡ 0
        → Steps future ms given ch (dequeue (sent_of ch s) rest)
          × (length (dequeue (sent_of ch s) rest).send_queue.queue + 1 ≡ length ch.send_queue.queue)
          × ((dequeue (sent_of ch s) rest).sock.sends ≡ s.sock.sends)
    sent_whole z =
        let n = ch.send_queue.current_qlen in
        let (fs, same) = flow_control-flows (without_first (sent_of ch s) rest) n (n - 1) in
        rw same (
          record {
            owes = same_input;
            sent = record {
              stream =
                  rw (l.output, z, unsent-zero rest)
                    (ap (λ r. (ch.sock.output ++ l.front) ++ (r ++ frames (map body_of rest)))
                        (sym (no_length s.rest z))
                      ∙ regroup ch.sock.output l.front s.rest _
                      ∙ on_wire);
              within = rw z (Within-zero rest);
              ready = (subst (λ m. All Ready m) q g.ready).1;
              counted = omega (arith, g.counted, ap length q);
              small = g.small;
            };
            taken = taken_none;
            shorter = rw q (omega arith);
            blocks = refl;
          },
          rw q (omega arith),
          refl,
        )
