-- ===== src/Ipc/Tests.antt =====
-- Channels on small inputs: the theorems where their hypotheses hold, and runs of the code.
use cluster_glue_import.Prelude.{
  ℕ, ◌<◌, ◌≡◌, refl, ◌∙◌, sym, true, List, [], ◌∷◌, ◌++◌, some, none, codes, replicate, All, arith,
}
use cluster_glue_import.Message.{Result, done, fault, ◌>>=◌}
use cluster_glue_import.Ipc.{Message, head_bytes, msg_len_of, magic_of, socket_queue_new}
use cluster_glue_import.Ipc.Pool.{
  Pool, ipc_bufpool_new, ipc_bufpool_full, ipc_bufpool_update, update_loop,
}
use cluster_glue_import.Ipc.Channel.{
  bytes, nothing_yet, taken, no_space, Socket, channel_new, recv, socket_check_flow_control,
}
use cluster_glue_import.Ipc.Read.{
  socket_check_poll, pool_with_space, on_received, check_errors, read_fuel, socket_resume_io_read,
}
use cluster_glue_import.Ipc.Write.{
  with_headroom, wire_of, send_loop, on_send_error, write_loop, socket_resume_io_write,
}
use cluster_glue_import.Ipc.Resume.{incoming, read_part, write_part, resume_loop, socket_resume_io}
use cluster_glue_import.Ipc.Client.{hand_over, socket_recv, wait_for_space, socket_send}
use cluster_glue_import.Ipc.Frames.{frames}
use cluster_glue_import.Ipc.Yields.{Yields}
use cluster_glue_import.Ipc.Update.{Took, ipc_bufpool_update_lem}
use cluster_glue_import.Ipc.Space.{Spacious, pool_with_space_lem}
use cluster_glue_import.Ipc.Owes.{Owes, outgoing}
use cluster_glue_import.Ipc.Unsent.{SentOf}
use cluster_glue_import.Ipc.Steps.{Steps}
use cluster_glue_import.Ipc.Resuming.{resume_io_lem}
use cluster_glue_import.Ipc.Giving.{Given, socket_send_lem}
use cluster_glue_import.Ipc.Fifo.{Handing, socket_recv_lem}
use cluster_glue_import.Ipc.Progress.{read-progress}
use cluster_glue_import.Ipc.Delivery.{Calls, calls, connected, send_all, recv_all, PaddedAt, fifo}

-- The first message is sent in two parts, and the second one stays.
abbrev near : Socket
near = record { input = []; sends = no_space ∷ taken 3 ∷ taken 90 ∷ []; polls = []; output = [] }

abbrev greeting : Message
greeting = record { pad = none; body = codes "hi" }

abbrev nothing : Message
nothing = record { pad = some (replicate 8 0); body = [] }

abbrev outbox : List (ℕ × Message)
outbox = (7, greeting) ∷ (8, nothing) ∷ []

abbrev wire_bytes : List ℕ
wire_bytes = 2 ∷ 0 ∷ 0 ∷ 0 ∷ 205 ∷ 171 ∷ 0 ∷ 0 ∷ codes "hi"

abbrev far : Socket
far = record {
  input =
      bytes (2 ∷ 0 ∷ 0 ∷ [])
      ∷ nothing_yet
      ∷ bytes (0 ∷ 205 ∷ 171 ∷ 0 ∷ 0 ∷ b'h' ∷ [])
      ∷ bytes (b'i' ∷ [])
      ∷ [];
  sends = [];
  polls = [];
  output = [];
}

abbrev value_of : Result Calls → Calls
value_of (done c) = c
value_of _ = calls (channel_new near) []

abbrev after_sends : Calls
after_sends = value_of (send_all outbox (connected near) [])

sent_bytes : after_sends.channel.sock.output ≡ wire_bytes
unfolding send_all socket_send wait_for_space socket_resume_io resume_loop read_part write_part
    incoming socket_resume_io_read read_fuel check_errors on_received pool_with_space recv
    socket_check_poll socket_resume_io_write write_loop send_loop wire_of with_headroom
    on_send_error ipc_bufpool_new ipc_bufpool_full socket_check_flow_control
sent_bytes = refl

sends_return : send_all outbox (connected near) [] ≡ done after_sends
unfolding send_all socket_send wait_for_space socket_resume_io resume_loop read_part write_part
    incoming socket_resume_io_read read_fuel check_errors on_received pool_with_space recv
    socket_check_poll socket_resume_io_write write_loop send_loop wire_of with_headroom
    on_send_error ipc_bufpool_new ipc_bufpool_full socket_check_flow_control
sends_return = refl

near-fits : incoming far.input ++ [] ≡ wire_bytes
unfolding incoming
near-fits = refl

no_frames : incoming near.input ++ [] ≡ frames []
unfolding incoming frames
no_frames = refl

outbox-Padded : All PaddedAt outbox
outbox-Padded = ((omega arith, omega arith), ((omega arith, omega arith), tt))

fifo_example :
    Yields
      (λ b. (rest : List (List ℕ)) × (after_sends.messages ≡ b.messages ++ rest))
      (recv_all 2 (connected far) [])
fifo_example =
    fifo near far outbox [] [] after_sends [] 2 outbox-Padded tt no_frames refl refl sends_return
      (near-fits ∙ sym sent_bytes)

-- The message comes with the second call.
received_run : recv_all 2 (connected far) [] >>= (λ c. done c.messages) ≡ done (codes "hi" ∷ [])
unfolding recv_all socket_recv hand_over socket_resume_io resume_loop read_part write_part incoming
    socket_resume_io_read read_fuel check_errors on_received pool_with_space recv ipc_bufpool_update
    update_loop socket_check_poll socket_resume_io_write write_loop ipc_bufpool_new ipc_bufpool_full
    msg_len_of magic_of
received_run = refl

far-Owes : Owes [] (connected far) (codes "hi" ∷ [])
unfolding incoming frames
far-Owes = record {
  todo = codes "hi" ∷ [];
  split = refl;
  small = (omega arith, tt);
  counted = refl;
  kept = refl;
}

far-SentOf : SentOf [] (outgoing (connected far))
unfolding frames
far-SentOf = record { stream = refl; within = refl; ready = tt; counted = refl; small = tt }

socket_recv_lem_example : Yields (Handing [] (codes "hi" ∷ []) []) (socket_recv (connected far))
socket_recv_lem_example =
    socket_recv_lem [] (codes "hi" ∷ []) [] (connected far) far-Owes far-SentOf

socket_send_lem_example :
    Yields (Given [] (codes "hi" ∷ []) [] (codes "hi")) (socket_send 5 (connected far) greeting 0)
socket_send_lem_example =
    socket_send_lem [] (codes "hi" ∷ []) [] greeting (omega arith, omega arith) 5 0 (connected far)
      far-Owes far-SentOf refl

resume_io_lem_example :
    Yields
      (λ o. Steps [] (codes "hi" ∷ []) [] (connected far) o.channel)
      (socket_resume_io (connected far))
resume_io_lem_example = resume_io_lem [] (codes "hi" ∷ []) [] (connected far) far-Owes far-SentOf

read-progress_example : Yields (λ r. 0 < r.nbytes) (socket_resume_io_read (connected far) true)
read-progress_example =
    read-progress [] (codes "hi" ∷ []) (connected far) true 2 (0 ∷ 0 ∷ []) _ far-Owes refl
      (omega arith) refl

-- A pool of 28 bytes: a message of 3 bytes, and the header of one of 12 bytes with a byte of it.
abbrev some_pool : Pool
some_pool = record { consumed = 0; pending = 3 ∷ 0 ∷ 0 ∷ 0 ∷ 205 ∷ []; room = 28 }

abbrev long_message : List ℕ
long_message = codes "a long messa"

abbrev new_bytes : List ℕ
new_bytes = 171 ∷ 0 ∷ 0 ∷ codes "abc" ++ (head_bytes 12 ++ codes "a")

abbrev later_bytes : List ℕ
later_bytes = codes " long messa"

abbrev two_messages : List (List ℕ)
two_messages = codes "abc" ∷ long_message ∷ []

update_example :
    Yields
      (Took (socket_queue_new (List ℕ)) 0 later_bytes two_messages)
      (ipc_bufpool_update some_pool new_bytes (socket_queue_new (List ℕ)))
unfolding frames
update_example =
    ipc_bufpool_update_lem later_bytes some_pool new_bytes (socket_queue_new (List ℕ)) two_messages
      (record { fits = omega arith; stream = refl; short = omega arith }) (omega arith)
      (omega arith, (omega arith, tt))

-- The pool after it is full: the header announces more than there is space for.
abbrev full_pool : Pool
full_pool = record { consumed = 11; pending = head_bytes 12 ++ codes "a"; room = 28 }

full : ipc_bufpool_full full_pool ≡ (true, 12)
unfolding ipc_bufpool_full msg_len_of
full = refl

space_example : Spacious later_bytes (long_message ∷ []) (pool_with_space full_pool)
unfolding frames
space_example =
    pool_with_space_lem later_bytes full_pool (long_message ∷ [])
      (record { fits = omega arith; stream = refl; short = omega arith }) (omega arith, tt)

-- A header of the length -8.
negative_length :
    ipc_bufpool_update
      (record { consumed = 0; pending = []; room = 4048 })
      (248 ∷ 255 ∷ 255 ∷ 255 ∷ 205 ∷ 171 ∷ 0 ∷ 0 ∷ [])
      (socket_queue_new (List ℕ))
    ≡ fault
unfolding ipc_bufpool_update update_loop msg_len_of magic_of
negative_length = refl

-- A message of no bytes and without space for its header.
no_memory : wire_of (with_headroom (record { pad = none; body = [] })) ≡ fault
unfolding wire_of with_headroom
no_memory = refl
