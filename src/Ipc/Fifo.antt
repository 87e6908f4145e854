-- ===== src/Ipc/Fifo.antt =====
-- `socket_recv` and `socket_send` of lib/clplumbing/ipcsocket.c: a channel is a queue of messages.
use cluster_glue_import.Prelude.{
  ℕ, ◌≡◌, refl, ap, ◌∙◌, sym, subst, inl, inr, List-cases, Bool-cases, true, false, not, List, ◌∷◌,
  ◌++◌, Option, none, some, ◌==◌, if◌then◌else◌, length, arith,
}
use cluster_glue_import.Ipc.{Rc, ipc_ok, ipc_fail, ipc_broken, is_ok}
use cluster_glue_import.Ipc.Channel.{Channel}
use cluster_glue_import.Ipc.Client.{Handed, hand_over, first_message, socket_recv}
use cluster_glue_import.Ipc.Yields.{Yields, yields, Yields-bind}
use cluster_glue_import.Ipc.Owes.{Owes, outgoing}
use cluster_glue_import.Ipc.Reading.{resume_io_read_lem}
use cluster_glue_import.Ipc.Unsent.{SentOf}
use cluster_glue_import.Ipc.Steps.{Reading-Steps}
use cluster_glue_import.Ipc.Resuming.{resume_io_lem}

-- What is owed after a call of `socket_recv`: one message less, or nothing was handed over.
abbrev pub After : List ℕ → List (List ℕ) → Option (List ℕ) → Rc → Channel → Type 0
After future ms none rc ch = (is_ok rc ≡ false) × Owes future ch ms
After future ms (some m) rc ch =
    (rc ≡ ipc_ok) × (rest : List (List ℕ)) × (ms ≡ m ∷ rest) × Owes future ch rest

pub record Handing (future : List ℕ) (ms given : List (List ℕ)) (h : Handed) : Type 0 where
  pub after : After future ms h.message h.rc h.channel
  pub sent : SentOf given (outgoing h.channel)

module _ (future : List ℕ) (ms given : List (List ℕ)) where
  no_result : (rc : Rc) → is_ok (if not (is_ok rc) then rc else ipc_fail) ≡ false
  no_result ipc_ok = refl
  no_result ipc_fail = refl
  no_result ipc_broken = refl

  hand_over_lem :
      (ch : Channel) (rc : Rc)
      → Owes future ch ms
      → SentOf given (outgoing ch)
      → Handing future ms given (hand_over ch rc)
  unfolding hand_over
  hand_over_lem ch rc o g = elim (Bool-cases (ch.recv_queue.current_qlen == 0)) [
    | inl e ↦ rw e (record { after = (no_result rc, o); sent = g })
    | inr e ↦ elim (List-cases ch.recv_queue.queue) [
      | inl empty ↦ absurd (ground (arith, o.counted, ap length empty))
      | inr (m, rest, q) ↦ rw e (
          subst (λ l. Handing future ms given (first_message ch l)) (sym q)
            (record {
              after = (
                refl,
                rest ++ o.todo,
                o.split ∙ ap (λ l. l ++ o.todo) q,
                record {
                  todo = o.todo;
                  split = refl;
                  small = o.small;
                  counted = omega (arith, o.counted, ap length q);
                  kept = o.kept;
                },
              );
              sent = g;
            }))
    ]
  ]

  -- On a channel that owes its client the messages `ms` and has been given messages to send, of which
  -- those that wait have the eight bytes of their header before the body, `socket_recv` returns,
  -- whatever the system answers. Either it hands over the first of them with IPC_OK and owes the others, or it hands over
  -- nothing, returns another value and owes the same. What was given to send is kept.
  pub socket_recv_lem :
      (ch : Channel)
      → Owes future ch ms
      → SentOf given (outgoing ch)
      → Yields (Handing future ms given) (socket_recv ch)
  unfolding socket_recv
  socket_recv_lem ch o g = Yields-bind (resume_io_lem future ms given ch o g) (λ c s.
      Yields-bind (resume_io_read_lem future ms c.channel true s.owes) (λ r h.
        let t = Reading-Steps future ms given c.channel r h s.sent in
        yields (hand_over_lem r.channel r.rc t.owes t.sent)))
