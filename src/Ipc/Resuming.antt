-- ===== src/Ipc/Resuming.antt =====
-- `socket_resume_io` of lib/clplumbing/ipcsocket.c ends, whatever the system answers, and keeps what
-- a channel owes to its client and to its peer.
use cluster_glue_import.Prelude.{
  ℕ, zero, suc, ◌+◌, ◌<◌, ◌≤◌, ◌≡◌, refl, inl, inr, Bool-cases, false, List, ltb, length, arith,
}
use cluster_glue_import.Ipc.{is_rconn}
use cluster_glue_import.Ipc.Channel.{Channel}
use cluster_glue_import.Ipc.Resume.{
  incoming, Loop, read_part, write_part, noted, goes_on, resume_loop, rounds, loop_of,
  socket_resume_io,
}
use cluster_glue_import.Ipc.Yields.{Yields, yields, Yields-bind, Yields-weaken}
use cluster_glue_import.Ipc.Owes.{Owes, outgoing}
use cluster_glue_import.Ipc.Reading.{resume_io_read_lem}
use cluster_glue_import.Ipc.Unsent.{SentOf}
use cluster_glue_import.Ipc.Steps.{Steps, status_Steps, trans_Steps, Reading-Steps}
use cluster_glue_import.Ipc.Writing.{resume_io_write_lem}

module _ (future : List ℕ) (ms given : List (List ℕ)) where
  -- The two halves of a round.
  record AfterRead (l l' : Loop) : Type 0 where
    steps : Steps future ms given l.channel l'.channel
    bytes :
        length (incoming l'.channel.sock.input) + l'.nbytes_r
        ≤ length (incoming l.channel.sock.input)
    same : l'.nwmsg ≡ l.nwmsg

  record AfterWrite (l l' : Loop) : Type 0 where
    steps : Steps future ms given l.channel l'.channel
    messages : length l'.channel.send_queue.queue + l'.nwmsg ≤ length l.channel.send_queue.queue
    same : l'.nbytes_r ≡ l.nbytes_r

  read_part_lem :
      (l : Loop)
      → Owes future l.channel ms
      → SentOf given (outgoing l.channel)
      → Yields (AfterRead l) (read_part l)
  unfolding read_part
  read_part_lem l o g = elim (Bool-cases (ltb 0 l.nbytes_r)) [
    | inl e ↦ rw e (
        Yields-bind (resume_io_read_lem future ms l.channel false o) (λ r h. yields (record {
          steps = Reading-Steps future ms given l.channel r h g;
          bytes = h.taken;
          same = refl;
        })))
    | inr e ↦ rw e (
        yields (record {
          steps = status_Steps future ms given l.channel l.channel.ch_status o g;
          bytes = ground arith;
          same = refl;
        }))
  ]

  write_part_lem :
      (l : Loop)
      → Owes future l.channel ms
      → SentOf given (outgoing l.channel)
      → Yields (AfterWrite l) (write_part l)
  unfolding write_part
  write_part_lem l o g = elim (Bool-cases (ltb 0 l.nwmsg)) [
    | inl e ↦ rw e (
        Yields-bind (resume_io_write_lem future ms given l.channel o g) (λ w h.
          yields (record { steps = h.steps; messages = omega (arith, h.count); same = refl })))
    | inr e ↦ rw e (
        yields (record {
          steps = status_Steps future ms given l.channel l.channel.ch_status o g;
          messages = ground arith;
          same = refl;
        }))
  ]

  resume_loop_lem :
      (fuel : ℕ) (l : Loop)
      → Owes future l.channel ms
      → SentOf given (outgoing l.channel)
      → rounds l.channel < fuel
      → Yields (λ l'. Steps future ms given l.channel l'.channel) (resume_loop fuel l)
  unfolding resume_loop
  resume_loop_lem zero l o g lt = absurd (omega arith)
  resume_loop_lem (suc fuel) l o g lt = Yields-bind (read_part_lem l o g) (λ l1 r.
      Yields-bind (write_part_lem l1 r.steps.owes r.steps.sent) (λ l2 w.
        let steps = trans_Steps future ms given l.channel l1.channel l2.channel r.steps w.steps in
        elim (Bool-cases (goes_on l2)) [
          | inl e ↦ rw e (
              Yields-weaken
                (λ l' s. trans_Steps future ms given l.channel l2.channel l'.channel steps s)
                (resume_loop_lem fuel (noted l2) w.steps.owes w.steps.sent (
                  ground
                    (arith, r.bytes, w.messages, r.same, w.same, w.steps.taken, r.steps.shorter))))
          | inr e ↦ rw e (yields steps)
        ]))

  -- On a channel that owes its client `ms` and has been given `given` to send, `socket_resume_io`
  -- ends, whatever the system answers; the channel owes and has been given the same afterwards, the
  -- input and the queue to be sent have not grown, and it blocks as before.
  pub resume_io_lem :
      (ch : Channel)
      → Owes future ch ms
      → SentOf given (outgoing ch)
      → Yields (λ o. Steps future ms given ch o.channel) (socket_resume_io ch)
  unfolding socket_resume_io
  resume_io_lem ch o g = elim (Bool-cases (is_rconn ch.ch_status)) [
    | inl e ↦ rw e (
        Yields-bind (resume_loop_lem (suc (rounds ch)) (loop_of ch) o g (omega arith))
          (λ l s. yields s))
    | inr e ↦ rw e (yields (status_Steps future ms given ch ch.ch_status o g))
  ]
