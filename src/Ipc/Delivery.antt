-- ===== src/Ipc/Delivery.antt =====
-- Two connected channels of lib/clplumbing/ipcsocket.c: what one end hands over, compared with what
-- the other end was given.
use cluster_glue_import.Prelude.{
  ℕ, zero, suc, ◌≡◌, refl, ap, ◌∙◌, sym, subst, false, List, [], ◌∷◌, ◌++◌, append_assoc, Option,
  none, some, All,
}
use cluster_glue_import.Message.{Result, done, ◌>>=◌}
use cluster_glue_import.Ipc.{connect, Rc, Message}
use cluster_glue_import.Ipc.Channel.{Socket, Channel, channel_new}
use cluster_glue_import.Ipc.Read.{set_status}
use cluster_glue_import.Ipc.Resume.{incoming}
use cluster_glue_import.Ipc.Client.{socket_recv, socket_send}
use cluster_glue_import.Ipc.Yields.{Yields, yields, Yields-bind}
use cluster_glue_import.Ipc.Frames.{frames, Small}
use cluster_glue_import.Ipc.Owes.{Owes, outgoing}
use cluster_glue_import.Ipc.Unsent.{Padded, unsent, SentOf}
use cluster_glue_import.Ipc.Giving.{given_after, socket_send_lem}
use cluster_glue_import.Ipc.Fifo.{After, socket_recv_lem}

-- A new channel once it is connected.
abbrev pub connected : Socket → Channel
connected sock = set_status (channel_new sock) connect

-- A channel after some calls, and the messages that it queued or handed over.
pub record Calls : Type 0 where
  pub channel : Channel
  pub messages : List (List ℕ)

abbrev pub calls : Channel → List (List ℕ) → Calls
calls ch ms = record { channel = ch; messages = ms }

-- Calls of `socket_send` at times.
unfoldable pub send_all : List (ℕ × Message) → Channel → List (List ℕ) → Result Calls
send_all [] ch given = done (calls ch given)
send_all ((now, msg) ∷ rest) ch given = do
  a ← socket_send now ch msg 0
  send_all rest a.channel (given_after given msg.body a.queued)

abbrev pub handed_after : List (List ℕ) → Option (List ℕ) → List (List ℕ)
handed_after got none = got
handed_after got (some m) = got ++ m ∷ []

-- Calls of `socket_recv`.
unfoldable pub recv_all : ℕ → Channel → List (List ℕ) → Result Calls
recv_all zero ch got = done (calls ch got)
recv_all (suc n) ch got = do h ← socket_recv ch; recv_all n h.channel (handed_after got h.message)

-- What is to be true of the messages that are to be sent.
abbrev pub PaddedAt : ℕ × Message → Type 0
PaddedAt (now, msg) = Padded msg

module _ (future : List ℕ) (ms : List (List ℕ)) where
  send_all_lem :
      (msgs : List (ℕ × Message)) (ch : Channel) (given : List (List ℕ))
      → All PaddedAt msgs
      → Owes future ch ms
      → SentOf given (outgoing ch)
      → ch.should_send_block ≡ false
      → Yields (λ c. SentOf c.messages (outgoing c.channel)) (send_all msgs ch given)
  unfolding send_all
  send_all_lem [] ch given p o g b = yields g
  send_all_lem ((now, msg) ∷ rest) ch given (p, ps) o g b =
      Yields-bind (socket_send_lem future ms given msg p now 0 ch o g b)
        (λ a h. send_all_lem rest a.channel _ ps h.owes h.sent h.blocks)

module _ (future : List ℕ) (all given : List (List ℕ)) where
  -- One call more.
  handed_lem :
      (got owed : List (List ℕ)) (message : Option (List ℕ)) (rc : Rc) (ch : Channel)
      → all ≡ got ++ owed
      → After future owed message rc ch
      → (rest : List (List ℕ)) × (all ≡ handed_after got message ++ rest) × Owes future ch rest
  handed_lem got owed none rc ch e (_, o) = (owed, e, o)
  handed_lem got owed (some m) rc ch e (_, rest, split, o) =
      (rest, e ∙ ap (λ l. got ++ l) split ∙ sym (append_assoc got (m ∷ []) rest), o)

  -- The messages that were handed over, and those that are still owed.
  recv_all_lem :
      (n : ℕ) (ch : Channel) (got owed : List (List ℕ))
      → all ≡ got ++ owed
      → Owes future ch owed
      → SentOf given (outgoing ch)
      → Yields (λ c. (rest : List (List ℕ)) × (all ≡ c.messages ++ rest)) (recv_all n ch got)
  unfolding recv_all
  recv_all_lem zero ch got owed e o g = yields (owed, e)
  recv_all_lem (suc n) ch got owed e o g =
      Yields-bind (socket_recv_lem future owed given ch o g) (λ h s.
        let (rest, e', o') = handed_lem got owed h.message h.rc h.channel e s.after in
        recv_all_lem n h.channel (handed_after got h.message) rest e' o' s.sent)

-- A new channel owes nothing of its own, and has been given nothing.
new_SentOf : (sock : Socket) → sock.output ≡ [] → SentOf [] (outgoing (connected sock))
unfolding frames
new_SentOf sock e = record { stream = rw e; within = refl; ready = tt; counted = refl; small = tt }

pub send_all_total :
    (sock : Socket) (msgs : List (ℕ × Message)) (future : List ℕ) (ms : List (List ℕ))
    → All PaddedAt msgs
    → All Small ms
    → incoming sock.input ++ future ≡ frames ms
    → sock.output ≡ []
    → Yields (λ c. SentOf c.messages (outgoing c.channel)) (send_all msgs (connected sock) [])
send_all_total sock msgs future ms p small e out =
    send_all_lem future ms msgs (connected sock) [] p
      (record { todo = ms; split = refl; small = small; counted = refl; kept = e })
      (new_SentOf sock out) refl

-- The messages that one end hands over are a beginning of those that the other end queued.
pub recv_all-send_all :
    (a : Calls) (sock : Socket) (later : List ℕ) (n : ℕ)
    → SentOf a.messages (outgoing a.channel)
    → incoming sock.input ++ later ≡ a.channel.sock.output
    → sock.output ≡ []
    → Yields
        (λ b. (rest : List (List ℕ)) × (a.messages ≡ b.messages ++ rest))
        (recv_all n (connected sock) [])
recv_all-send_all a sock later n g e out =
    let unsent_bytes = unsent a.channel.send_queue.queue a.channel.bytes_remaining in
    recv_all_lem (later ++ unsent_bytes) a.messages [] n (connected sock) [] a.messages refl
      (record {
        todo = a.messages;
        split = refl;
        small = g.small;
        counted = refl;
        kept =
            sym (append_assoc (incoming sock.input) later unsent_bytes)
            ∙ ap (λ s. s ++ unsent_bytes) e
            ∙ g.stream;
      })
      (new_SentOf sock out)

done_same {ℓ} : {A : Type ℓ} {x y : A} {r : Result A} → r ≡ done x → r ≡ done y → x ≡ y
done_same e e' = cc

-- Two new channels that are connected, and whose sockets have sent nothing; messages that
-- have at most the eight bytes of their header as space before the body, and have bytes or just this
-- space; and a peer whose bytes are frames of messages of at most MAXMSG bytes. However the sockets
-- portion and delay the bytes, and whatever else they answer, what the one end hands over is a
-- beginning of what the other end queued.
pub fifo :
    (near far : Socket) (msgs : List (ℕ × Message)) (future : List ℕ) (ms : List (List ℕ))
    (a : Calls) (later : List ℕ) (n : ℕ)
    → All PaddedAt msgs
    → All Small ms
    → incoming near.input ++ future ≡ frames ms
    → near.output ≡ []
    → far.output ≡ []
    → send_all msgs (connected near) [] ≡ done a
    → incoming far.input ++ later ≡ a.channel.sock.output
    → Yields
        (λ b. (rest : List (List ℕ)) × (a.messages ≡ b.messages ++ rest))
        (recv_all n (connected far) [])
fifo near far msgs future ms a later n p small stream out out' sent arrived =
    let y = send_all_total near msgs future ms p small stream out in
    let given =
      subst (λ c. SentOf c.messages (outgoing c.channel)) (done_same y.returns sent) y.holds in
    recv_all-send_all a far later n given arrived out'
