-- ===== src/Ipc/Giving.antt =====
-- `socket_send` of lib/clplumbing/ipcsocket.c on a channel that does not block.
use cluster_glue_import.Prelude.{
  ℕ, suc, ◌-◌, ◌≤◌, ◌≡◌, refl, ap, ◌∙◌, sym, subst, inl, inr, Bool-cases, Bool, true, false, ◌&&◌,
  ◌||◌, not, List, [], ◌∷◌, ◌++◌, append_assoc, append-nil, map, ltb, leb, length, length-append,
  All-append, arith,
}
use cluster_glue_import.Ipc.{Rc, is_ok, is_wconn, maxmsg, Message, Queue}
use cluster_glue_import.Ipc.Channel.{Channel}
use cluster_glue_import.Ipc.Write.{with_headroom, to_send}
use cluster_glue_import.Ipc.Client.{
  Accepted, accepted, clear_warning, count_dropped, is_full, with_last, put_message, wait_for_space,
  send_to, socket_send,
}
use cluster_glue_import.Ipc.Yields.{Yields, yields, Yields-bind}
use cluster_glue_import.Ipc.Frames.{frame, frames, Small}
use cluster_glue_import.Ipc.Owes.{Owes, Outgoing, outgoing}
use cluster_glue_import.Ipc.Unsent.{
  body_of, Ready, Padded, unsent, Within, SentOf, with_headroom-Ready,
}
use cluster_glue_import.Ipc.Steps.{flow_control-flows}
use cluster_glue_import.Ipc.Resuming.{resume_io_lem}

-- The messages that have been given to the channel after a call of `socket_send`.
abbrev pub given_after : List (List ℕ) → List ℕ → Bool → List (List ℕ)
given_after given body true = given ++ body ∷ []
given_after given body false = given

-- What `socket_send` leaves. A message that was queued is reported as IPC_OK.
pub record Given (future : List ℕ) (ms given : List (List ℕ)) (body : List ℕ) (a : Accepted)
    : Type 0 where
  pub owes : Owes future a.channel ms
  pub sent : SentOf (given_after given body a.queued) (outgoing a.channel)
  pub blocks : a.channel.should_send_block ≡ false
  pub told : (not a.queued || is_ok a.rc) ≡ true

frames-append : (xs ys : List (List ℕ)) → frames (xs ++ ys) ≡ frames xs ++ frames ys
unfolding frames
frames-append [] ys = refl
frames-append (x ∷ xs) ys =
    ap (λ l. frame x ++ l) (frames-append xs ys)
    ∙ sym (append_assoc (frame x) (frames xs) (frames ys))

frames_bodies-append :
    (q : List Message) (m : Message)
    → frames (map body_of (q ++ m ∷ [])) ≡ frames (map body_of q) ++ frame m.body
unfolding frames
frames_bodies-append [] m = append-nil (frame m.body)
frames_bodies-append (x ∷ q) m =
    ap (λ l. frame x.body ++ l) (frames_bodies-append q m)
    ∙ sym (append_assoc (frame x.body) (frames (map body_of q)) (frame m.body))

unsent-append :
    (q : List Message) (m : Message) (remaining : ℕ)
    → Within q remaining
    → unsent (q ++ m ∷ []) remaining ≡ unsent q remaining ++ frame m.body
unfolding frames
unsent-append [] m remaining h = rw h (append-nil (frame m.body))
unsent-append (x ∷ q) m remaining h =
    ap (λ l. to_send remaining (frame x.body) ++ l) (frames_bodies-append q m)
    ∙ sym (append_assoc (to_send remaining (frame x.body)) _ (frame m.body))

Within-append :
    (q : List Message) (m : Message) (remaining : ℕ)
    → Within q remaining
    → Within (q ++ m ∷ []) remaining
Within-append [] m remaining h = omega (arith, h)
Within-append (x ∷ q) m remaining h = h

-- One message more in the queue.
queued :
    (given : List (List ℕ)) (o : Outgoing) (m : Message)
    → SentOf given o
    → Ready m
    → length m.body ≤ maxmsg
    → SentOf (given ++ m.body ∷ []) (record o {
      queue = record o.queue {
        queue = o.queue.queue ++ m ∷ [];
        current_qlen = suc o.queue.current_qlen;
      };
    })
unfolding frames
queued given o m g r le = record {
  stream =
      rw (unsent-append o.queue.queue m o.remaining g.within, frames-append given (m.body ∷ []))
        (sym (append_assoc o.output _ (frame m.body))
          ∙ ap (λ l. l ++ frame m.body) g.stream
          ∙ ap (λ l. frames given ++ l) (sym (append-nil (frame m.body))));
  within = Within-append o.queue.queue m o.remaining g.within;
  ready = All-append Ready o.queue.queue (m ∷ []) g.ready (r, tt);
  counted = omega (arith, g.counted, length-append o.queue.queue (m ∷ []));
  small = All-append Small given (m.body ∷ []) g.small (le, tt);
}

-- The other counters of the queue do not matter.
other_counters :
    (given : List (List ℕ)) (o : Outgoing) (q : Queue Message)
    → SentOf given o
    → q.queue ≡ o.queue.queue
    → q.current_qlen ≡ o.queue.current_qlen
    → SentOf given (record o { queue = q })
other_counters given o q g e e' = record {
  stream = rw e g.stream;
  within = rw e g.within;
  ready = rw e g.ready;
  counted = rw (e, e') g.counted;
  small = g.small;
}

cleared :
    (now : ℕ) (q : Queue Message)
    → ((clear_warning now q).queue ≡ q.queue)
      × ((clear_warning now q).current_qlen ≡ q.current_qlen)
cleared now q = elim (Bool-cases (ltb 0 q.maxqlen_cnt && leb 60 (now - q.last_maxqlen_warn))) [
  | inl e ↦ rw e (refl, refl)
  | inr e ↦ rw e (refl, refl)
]

module _ (future : List ℕ) (ms given : List (List ℕ)) (msg : Message) (padded : Padded msg) where
  put_message_lem :
      (ch : Channel)
      → Owes future ch ms
      → SentOf given (outgoing ch)
      → ch.should_send_block ≡ false
      → length msg.body ≤ maxmsg
      → Yields (Given future ms given msg.body) (put_message ch msg)
  put_message_lem ch o g b le =
      let n = ch.send_queue.current_qlen in
      let (ready, same) = with_headroom-Ready msg padded in
      let (fs, flow) = flow_control-flows (with_last ch msg) n (suc n) in
      let more : SentOf (given ++ msg.body ∷ []) (outgoing (with_last ch msg)) =
        subst (λ body. SentOf (given ++ body ∷ []) (outgoing (with_last ch msg))) same
          (queued given (outgoing ch) (with_headroom msg) g ready (rw same le)) in
      rw flow (
        Yields-bind
          (resume_io_lem future ms (given ++ msg.body ∷ [])
            (record (with_last ch msg) { flows = fs }) o more)
          (λ c s.
            yields (record { owes = s.owes; sent = s.sent; blocks = s.blocks ∙ b; told = refl })))

  refused_lem :
      (ch : Channel) (q : Queue Message) (rc : Rc)
      → Owes future ch ms
      → SentOf given (outgoing ch)
      → ch.should_send_block ≡ false
      → q.queue ≡ ch.send_queue.queue
      → q.current_qlen ≡ ch.send_queue.current_qlen
      → Given future ms given msg.body (accepted (record ch { send_queue = q }) false rc)
  refused_lem ch q rc o g b e e' = record {
    owes = o;
    sent = other_counters given (outgoing ch) q g e e';
    blocks = b;
    told = refl;
  }

  send_to_lem :
      (now fuel : ℕ) (ch : Channel)
      → Owes future ch ms
      → SentOf given (outgoing ch)
      → ch.should_send_block ≡ false
      → length msg.body ≤ maxmsg
      → Yields (Given future ms given msg.body) (send_to now ch msg fuel)
  unfolding wait_for_space
  send_to_lem now fuel ch o g b le =
      let q = clear_warning now ch.send_queue in
      let (e, e') = cleared now ch.send_queue in
      let ch' = record ch { send_queue = q } in
      elim (Bool-cases (is_full q)) [
        | inl full ↦
            let drops : (not ch.should_send_block && is_full q) ≡ true = ground (arith, b) in
            rw drops (yields (refused_lem ch (count_dropped now q) _ o g b e e'))
        | inr space ↦
            let waits : (not ch.should_send_block && is_full q) ≡ false = ground (arith, b) in
            rw (waits, space)
              (put_message_lem ch' o (other_counters given (outgoing ch) q g e e') b le)
      ]

  -- On a channel that does not block, that owes its client `ms` and has been given `given` to send,
  -- and for a message that has at most the eight bytes of its header as space before the body, and
  -- has bytes or just this space: `socket_send` returns, whatever the system answers. The bytes that are sent and those that are to be sent are the frames of `given`,
  -- with the message at the end if it was queued, and the channel owes the same messages. A queued
  -- message is reported as IPC_OK.
  pub socket_send_lem :
      (now fuel : ℕ) (ch : Channel)
      → Owes future ch ms
      → SentOf given (outgoing ch)
      → ch.should_send_block ≡ false
      → Yields (Given future ms given msg.body) (socket_send now ch msg fuel)
  unfolding socket_send
  socket_send_lem now fuel ch o g b = elim (Bool-cases (ltb maxmsg (length msg.body))) [
    | inl big ↦ rw big (yields (refused_lem ch ch.send_queue _ o g b refl refl))
    | inr fits ↦ elim (Bool-cases (is_wconn ch.ch_status)) [
      | inr closed ↦ rw (fits, closed) (yields (refused_lem ch ch.send_queue _ o g b refl refl))
      | inl connected ↦
          rw (fits, connected)
            (Yields-bind (resume_io_lem future ms given ch o g)
              (λ c s. send_to_lem now fuel c.channel s.owes s.sent (s.blocks ∙ b) (ground arith)))
    ]
  ]
