-- ===== src/Ipc/Owes.antt =====
-- What a channel of lib/clplumbing/ipcsocket.c owes its client: the messages in its queue, and those
-- whose bytes are in its pool or on their way.
use cluster_glue_import.Prelude.{
  ℕ, zero, suc, ◌+◌, ◌<◌, ◌≤◌, ◌≡◌, refl, ap, ◌∙◌, sym, inl, inr, Bool-cases, Bool, List, [], ◌∷◌,
  ◌++◌, append_assoc, Option, none, some, leb, length, take, drop, All, arith,
}
use cluster_glue_import.Ipc.{Queue, Message}
use cluster_glue_import.Ipc.Pool.{Pool}
use cluster_glue_import.Ipc.Channel.{
  Received, bytes, nothing_yet, reset, recv_error, Sent, Channel, recv,
}
use cluster_glue_import.Ipc.Read.{Read}
use cluster_glue_import.Ipc.Resume.{incoming}
use cluster_glue_import.Ipc.Frames.{frames, Small}
use cluster_glue_import.Ipc.Update.{Holds}

-- The pool of a channel, which may not be made yet.
abbrev pub Kept : Option Pool → List ℕ → List (List ℕ) → Type 0
Kept none future todo = future ≡ frames todo
Kept (some pool) future todo = Holds pool future todo

-- `ms` are the messages that are owed. `future` is what will be sent after the input.
pub record OwesOf (future : List ℕ) (q : Queue (List ℕ)) (pool : Option Pool)
    (input : List Received) (ms : List (List ℕ)) : Type 0 where
  pub todo : List (List ℕ)
  pub split : ms ≡ q.queue ++ todo
  pub small : All Small todo
  pub counted : q.current_qlen ≡ length q.queue
  pub kept : Kept pool (incoming input ++ future) todo

abbrev pub Owes : List ℕ → Channel → List (List ℕ) → Type 0
Owes future ch ms = OwesOf future ch.recv_queue ch.pool ch.sock.input ms

-- The part of a channel that reading leaves alone.
pub record Outgoing : Type 0 where
  pub queue : Queue Message
  pub remaining : ℕ
  pub sends : List Sent
  pub output : List ℕ
  pub blocks : Bool

abbrev pub outgoing : Channel → Outgoing
outgoing ch = record {
  queue = ch.send_queue;
  remaining = ch.bytes_remaining;
  sends = ch.sock.sends;
  output = ch.sock.output;
  blocks = ch.should_send_block;
}

-- What a read makes of `ch`, which owes `ms`.
pub record Reading (future : List ℕ) (ms : List (List ℕ)) (ch : Channel) (r : Read) : Type 0 where
  pub owes : Owes future r.channel ms
  pub taken : length (incoming r.channel.sock.input) + r.nbytes ≤ length (incoming ch.sock.input)
  pub same_out : outgoing r.channel ≡ outgoing ch

abbrev pub bytes_of : Received → List ℕ
bytes_of (bytes s) = s
bytes_of _ = []

pub take-drop {ℓ} : {A : Type ℓ} (n : ℕ) (xs : List A) → take n xs ++ drop n xs ≡ xs
take-drop zero xs = refl
take-drop (suc n) [] = refl
take-drop (suc n) (x ∷ xs) = ap (λ l. x ∷ l) (take-drop n xs)

pub take_all {ℓ} : {A : Type ℓ} (n : ℕ) (xs : List A) → length xs ≤ n → take n xs ≡ xs
take_all zero [] h = refl
take_all zero (x ∷ xs) h = absurd (omega arith)
take_all (suc n) [] h = refl
take_all (suc n) (x ∷ xs) h = ap (λ l. x ∷ l) (take_all n xs (omega arith))

length-take_le {ℓ} : {A : Type ℓ} (n : ℕ) (xs : List A) → length (take n xs) ≤ n
length-take_le zero xs = omega arith
length-take_le (suc n) [] = omega arith
length-take_le (suc n) (x ∷ xs) = omega (arith, length-take_le n xs)

-- `recv` takes a front of what is on its way, as much as there is space for.
pub recv-incoming :
    (input : List Received) (len : ℕ)
    → bytes_of (recv input len).answer ++ incoming (recv input len).input ≡ incoming input
unfolding recv incoming
recv-incoming [] len = refl
recv-incoming (bytes s ∷ rest) len = elim (Bool-cases (leb (length s) len)) [
  | inl all ↦ rw (all, take_all len s (ground arith))
  | inr part ↦ rw part (
      sym (append_assoc (take len s) (drop len s) (incoming rest))
      ∙ ap (λ l. l ++ incoming rest) (take-drop len s))
]
recv-incoming (nothing_yet ∷ rest) len = refl
recv-incoming (reset ∷ rest) len = refl
recv-incoming (recv_error ∷ rest) len = refl

pub recv-length :
    (input : List Received) (len : ℕ) → length (bytes_of (recv input len).answer) ≤ len
unfolding recv
recv-length [] len = omega arith
recv-length (bytes s ∷ rest) len = length-take_le len s
recv-length (nothing_yet ∷ rest) len = omega arith
recv-length (reset ∷ rest) len = omega arith
recv-length (recv_error ∷ rest) len = omega arith

-- A reset is told once.
pub recv-reset :
    (input : List Received) (len : ℕ)
    → (recv input len).answer ≡ reset
    → length (recv input len).input < length input
unfolding recv
recv-reset [] len e = absurd (ground arith)
recv-reset (bytes s ∷ rest) len e = absurd (ground arith)
recv-reset (nothing_yet ∷ rest) len e = omega arith
recv-reset (reset ∷ rest) len e = omega arith
recv-reset (recv_error ∷ rest) len e = omega arith
