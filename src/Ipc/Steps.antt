-- ===== src/Ipc/Steps.antt =====
-- Steps of a channel of lib/clplumbing/ipcsocket.c, and what they keep: the messages that it owes to
-- its client, and those that it has been given.
use cluster_glue_import.Prelude.{
  ℕ, ◌≤◌, ◌≡◌, refl, ap, ◌∙◌, sym, subst, inl, inr, Bool-cases, List, ◌++◌, length, arith,
}
use cluster_glue_import.Ipc.{Status, is_rconn}
use cluster_glue_import.Ipc.Channel.{Flow, Channel, flow_calls, socket_check_flow_control}
use cluster_glue_import.Ipc.Read.{set_status, Read}
use cluster_glue_import.Ipc.Resume.{incoming}
use cluster_glue_import.Ipc.Owes.{Owes, outgoing, Reading}
use cluster_glue_import.Ipc.Unsent.{SentOf}

-- What a step of a channel leads to, which owes `ms` and was given `given`.
pub record Steps (future : List ℕ) (ms given : List (List ℕ)) (ch ch' : Channel) : Type 0 where
  pub owes : Owes future ch' ms
  pub sent : SentOf given (outgoing ch')
  pub taken : length (incoming ch'.sock.input) ≤ length (incoming ch.sock.input)
  pub shorter : length ch'.send_queue.queue ≤ length ch.send_queue.queue
  pub blocks : ch'.should_send_block ≡ ch.should_send_block

-- Flow control notes its calls alone.
pub flow_control-flows :
    (ch : Channel) (m n : ℕ)
    → (fs : List Flow) × (socket_check_flow_control ch m n ≡ record ch { flows = fs })
unfolding socket_check_flow_control
flow_control-flows ch m n = elim (Bool-cases (is_rconn ch.ch_status)) [
  | inl e ↦ (ch.flows ++ flow_calls ch m n, rw e)
  | inr e ↦ (ch.flows, rw e)
]

module _ (future : List ℕ) (ms given : List (List ℕ)) where
  -- Another status is a step.
  pub status_Steps :
      (ch : Channel) (st : Status)
      → Owes future ch ms
      → SentOf given (outgoing ch)
      → Steps future ms given ch (set_status ch st)
  status_Steps ch st o s = record {
    owes = o;
    sent = s;
    taken = omega arith;
    shorter = omega arith;
    blocks = refl;
  }

  pub trans_Steps :
      (a b c : Channel)
      → Steps future ms given a b
      → Steps future ms given b c
      → Steps future ms given a c
  trans_Steps a b c s t = record {
    owes = t.owes;
    sent = t.sent;
    taken = omega (arith, s.taken, t.taken);
    shorter = omega (arith, s.shorter, t.shorter);
    blocks = t.blocks ∙ s.blocks;
  }

  -- A read is a step.
  pub Reading-Steps :
      (ch : Channel) (r : Read)
      → Reading future ms ch r
      → SentOf given (outgoing ch)
      → Steps future ms given ch r.channel
  Reading-Steps ch r h s = record {
    owes = h.owes;
    sent = subst (λ o. SentOf given o) (sym h.same_out) s;
    taken = omega (arith, h.taken);
    shorter =
        subst (λ o. length o.queue.queue ≤ length ch.send_queue.queue) (sym h.same_out)
          (omega arith);
    blocks = ap (λ o. o.blocks) h.same_out;
  }
