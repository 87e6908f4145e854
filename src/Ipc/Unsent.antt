-- ===== src/Ipc/Unsent.antt =====
-- The bytes that a channel of lib/clplumbing/ipcsocket.c has sent, and those that it is to send.
use cluster_glue_import.Prelude.{
  ℕ, zero, suc, ◌+◌, ◌-◌, ◌<◌, ◌≤◌, ◌≡◌, refl, ap, ◌∙◌, sym, subst, inl, inr, Bool-cases, true,
  false, List, [], ◌∷◌, ◌++◌, append_assoc, append-nil, map, Option, none, some, is_some, ltb,
  length, length-append, take, drop, replicate, All, arith,
}
use cluster_glue_import.Message.{done}
use cluster_glue_import.Message.Peel.{drop-append}
use cluster_glue_import.Ipc.{msgpad, Message}
use cluster_glue_import.Ipc.Channel.{Sent, taken, no_space, epipe, send_error, Socket}
use cluster_glue_import.Ipc.Write.{
  pad_length, with_headroom, wire_of, Sending, out, send_loop, to_send,
}
use cluster_glue_import.Ipc.Frames.{frame, frames, Small, length-drop}
use cluster_glue_import.Ipc.Owes.{Outgoing, take-drop, take_all}

abbrev pub body_of : Message → List ℕ
body_of msg = msg.body

-- A message with space for the header in front of it, and no more.
abbrev pub Ready : Message → Type 0
Ready msg = (pad : List ℕ) × (msg.pad ≡ some pad) × (length pad ≡ msgpad)

-- A message that `socket_send` gets: a message of no bytes has space for its header.
abbrev pub Padded : Message → Type 0
Padded msg = (pad_length msg ≤ msgpad) × (0 < length msg.body + (pad_length msg - 7))

-- The bytes to be sent: what is left of the first message, and the others.
abbrev pub unsent : List Message → ℕ → List ℕ
unsent [] remaining = []
unsent (msg ∷ rest) remaining = to_send remaining (frame msg.body) ++ frames (map body_of rest)

abbrev pub Within : List Message → ℕ → Type 0
Within [] remaining = remaining ≡ 0
Within (msg ∷ rest) remaining = remaining ≤ msgpad + length msg.body

-- A channel that has been given the messages `ms` to send.
pub record SentOf (ms : List (List ℕ)) (o : Outgoing) : Type 0 where
  pub stream : o.output ++ unsent o.queue.queue o.remaining ≡ frames ms
  pub within : Within o.queue.queue o.remaining
  pub ready : All Ready o.queue.queue
  pub counted : o.queue.current_qlen ≡ length o.queue.queue
  pub small : All Small ms

behind_pad : (pad body : List ℕ) → length pad ≡ msgpad → drop msgpad (pad ++ body) ≡ body
behind_pad pad body n = subst (λ k. drop k (pad ++ body) ≡ body) n (drop-append pad body)

with_headroom-stays : (msg : Message) → Ready msg → with_headroom msg ≡ msg
unfolding with_headroom
with_headroom-stays msg (pad, e, n) =
    let enough : ltb (length pad) msgpad ≡ false = ground arith in rw (e, enough)

-- The frame of a message that is ready.
pub wire_of-Ready :
    (msg : Message) → Ready msg → wire_of (with_headroom msg) ≡ done (frame msg.body)
unfolding wire_of
wire_of-Ready msg (pad, e, n) =
    rw (with_headroom-stays msg (pad, e, n), e, behind_pad pad msg.body n)
      (ap done (take_all (length msg.body + msgpad) (frame msg.body) (omega arith)))

headroom :
    (pad : Option (List ℕ)) (body : List ℕ)
    → Padded (record { pad = pad; body = body })
    → Ready (with_headroom (record { pad = pad; body = body }))
      × ((with_headroom (record { pad = pad; body = body })).body ≡ body)
unfolding with_headroom
headroom none [] (le, h) = absurd (omega arith)
headroom none (b ∷ bs) (le, h) = ((replicate msgpad 0, refl, refl), refl)
headroom (some pad) [] (le, h) =
    let enough : ltb (length pad) msgpad ≡ false = ground arith in
    rw enough ((pad, refl, omega arith), refl)
headroom (some pad) (b ∷ bs) (le, h) = elim (Bool-cases (ltb (length pad) msgpad)) [
  | inl few ↦ rw few ((replicate msgpad 0, refl, refl), refl)
  | inr all ↦ rw all ((pad, refl, ground arith), refl)
]

pub with_headroom-Ready :
    (msg : Message) → Padded msg → Ready (with_headroom msg) × ((with_headroom msg).body ≡ msg.body)
with_headroom-Ready msg h = headroom msg.pad msg.body h

-- What the loop of `send` does with the bytes `p`.
pub record Sends (sock : Socket) (sends : List Sent) (p : List ℕ) (s : Sending) : Type 0 where
  pub front : List ℕ
  pub split : p ≡ front ++ s.rest
  pub output : s.sock.output ≡ sock.output ++ front
  pub input : s.sock.input ≡ sock.input
  pub left : is_some s.error ≡ true → 0 < length s.rest
  pub used : is_some s.error ≡ false → length s.sock.sends < length sends

stopped :
    (sock : Socket) (sends : List Sent) (a : Sent) (p : List ℕ) (error : Option Sent)
    → 0 < length p
    → Sends sock (a ∷ sends) p (record { sock = out sock sends []; rest = p; error = error })
stopped sock sends a p error h = record {
  front = [];
  split = refl;
  output = refl;
  input = refl;
  left = λ _. h;
  used = λ _. omega arith;
}

pub send_loop_lem :
    (sock : Socket) (sends : List Sent) (p : List ℕ)
    → 0 < length p
    → Sends sock sends p (send_loop sock sends p)
unfolding send_loop
send_loop_lem sock [] p h = record {
  front = [];
  split = refl;
  output = refl;
  input = refl;
  left = λ _. h;
  used = λ e. absurd (ground arith);
}
send_loop_lem sock (taken zero ∷ sends) p h = stopped sock sends _ p none h
send_loop_lem sock (taken (suc k) ∷ sends) p h = elim (Bool-cases (ltb (suc k) (length p))) [
  | inl more ↦
      let s = take (suc k) p in
      let r =
        send_loop_lem (out sock sends s) sends (drop (suc k) p)
          (ground (arith, length-drop (suc k) p (ground arith))) in
      rw more (record {
        front = s ++ r.front;
        split =
            sym (take-drop (suc k) p) ∙ ap (λ l. s ++ l) r.split ∙ sym (append_assoc s r.front _);
        output = r.output ∙ append_assoc sock.output s r.front;
        input = r.input;
        left = r.left;
        used = λ e. omega (arith, r.used e);
      })
  | inr all ↦ rw all (record {
    front = take (suc k) p;
    split = sym (take_all (suc k) p (ground arith)) ∙ sym (append-nil _);
    output = refl;
    input = refl;
    left = λ e. absurd (ground arith);
    used = λ _. omega arith;
  })
]
send_loop_lem sock (no_space ∷ sends) p h = stopped sock sends _ p (some no_space) h
send_loop_lem sock (epipe ∷ sends) p h = stopped sock sends _ p (some epipe) h
send_loop_lem sock (send_error ∷ sends) p h = stopped sock sends _ p (some send_error) h

-- A rest of a frame is found by its length.
pub to_send-rest :
    (w x rest : List ℕ) → w ≡ x ++ rest → 0 < length rest → to_send (length rest) w ≡ rest
to_send-rest w x [] e h = absurd (omega arith)
to_send-rest w x (c ∷ cs) e h =
    let n : length w - suc (length cs) ≡ length x =
      omega (arith, ap length e, length-append x (c ∷ cs)) in
    subst (λ k. drop k w ≡ c ∷ cs) (sym n)
      (subst (λ l. drop (length x) l ≡ c ∷ cs) (sym e) (drop-append x (c ∷ cs)))

pub to_send-split :
    (n : ℕ) (w : List ℕ)
    → n ≤ length w
    → 0 < length w
    → (x : List ℕ) × (w ≡ x ++ to_send n w) × (0 < length (to_send n w))
to_send-split zero w le h = ([], refl, h)
to_send-split (suc n) w le h =
    let k = length w - suc n in
    (take k w, sym (take-drop k w), omega (arith, length-drop k w (omega arith)))
