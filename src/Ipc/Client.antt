-- ===== src/Ipc/Client.antt =====
-- The operations of a channel's client: `socket_recv`, `socket_send` and the small operations of
-- lib/clplumbing/ipcsocket.c.
use cluster_glue_import.Prelude.{
  ℕ, zero, suc, ◌-◌, ◌%◌, ◌^◌, Bool, true, false, ◌&&◌, ◌||◌, not, List, [], ◌∷◌, ◌++◌, Option,
  none, some, leb, ltb, ◌==◌, if◌then◌else◌, length,
}
use cluster_glue_import.Message.{Result, done, unfinished, ◌>>=◌}
use cluster_glue_import.Ipc.{
  disconnect, Status, Rc, ipc_ok, ipc_fail, is_ok, is_rconn, is_wconn, maxmsg, Message, Queue,
}
use cluster_glue_import.Ipc.Channel.{Channel, socket_check_flow_control}
use cluster_glue_import.Ipc.Read.{set_status, socket_resume_io_read}
use cluster_glue_import.Ipc.Write.{with_headroom}
use cluster_glue_import.Ipc.Resume.{socket_resume_io}

-- `socket_recv`. A queue whose counter is wrong is put right.
pub record Handed : Type 0 where
  pub channel : Channel
  pub message : Option (List ℕ)
  pub rc : Rc

abbrev pub with_recv_queue : Channel → List (List ℕ) → ℕ → Channel
with_recv_queue ch queue n = record ch {
  recv_queue = record ch.recv_queue { queue = queue; current_qlen = n };
}

abbrev pub first_message : Channel → List (List ℕ) → Handed
first_message ch [] = record { channel = with_recv_queue ch [] 0; message = none; rc = ipc_fail }
first_message ch (m ∷ rest) = record {
  channel = with_recv_queue ch rest (ch.recv_queue.current_qlen - 1);
  message = some m;
  rc = ipc_ok;
}

unfoldable pub hand_over : Channel → Rc → Handed
hand_over ch result =
    if ch.recv_queue.current_qlen == 0
    then record {
      channel = ch;
      message = none;
      rc = if not (is_ok result) then result else ipc_fail;
    }
    else first_message ch ch.recv_queue.queue

unfoldable pub socket_recv : Channel → Result Handed
socket_recv ch = do
  o ← socket_resume_io ch
  r ← socket_resume_io_read o.channel true
  done (hand_over r.channel r.rc)

-- The counter of dropped messages is cleared once a minute, when it has been logged.
abbrev pub clear_warning : ℕ → Queue Message → Queue Message
clear_warning now q =
    if ltb 0 q.maxqlen_cnt && leb 60 (now - q.last_maxqlen_warn)
    then record q { maxqlen_cnt = 0 }
    else q

abbrev pub count_dropped : ℕ → Queue Message → Queue Message
count_dropped now q = record q {
  last_maxqlen_warn = if q.maxqlen_cnt == 0 then now else q.last_maxqlen_warn;
  maxqlen_cnt = suc q.maxqlen_cnt % 2 ^ 32;
}

abbrev pub is_full : Queue Message → Bool
is_full q = leb q.max_qlen q.current_qlen

-- What `socket_send` leaves, and whether the message went to the queue.
pub record Accepted : Type 0 where
  pub channel : Channel
  pub queued : Bool
  pub rc : Rc

abbrev pub accepted : Channel → Bool → Rc → Accepted
accepted ch queued rc = record { channel = ch; queued = queued; rc = rc }

abbrev pub with_last : Channel → Message → Channel
with_last ch msg = record ch {
  send_queue = record ch.send_queue {
    queue = ch.send_queue.queue ++ with_headroom msg ∷ [];
    current_qlen = suc ch.send_queue.current_qlen;
  };
}

abbrev pub append_message : Channel → Message → Channel
append_message ch msg =
    let n = ch.send_queue.current_qlen in socket_check_flow_control (with_last ch msg) n (suc n)

abbrev pub put_message : Channel → Message → Result Accepted
put_message ch msg = do
  o ← socket_resume_io (append_message ch msg)
  done (accepted o.channel true ipc_ok)

-- The loop that waits for space in the queue, which has no bound in the code.
unfoldable pub wait_for_space : ℕ → Channel → Message → Result Accepted
wait_for_space zero ch msg = unfinished
wait_for_space (suc fuel) ch msg =
    let rest = socket_resume_io ch >>= λ o. wait_for_space fuel o.channel msg in
    if not (is_full ch.send_queue)
    then put_message ch msg
    else if not (is_wconn ch.ch_status)
    then done (accepted ch false ipc_fail)
    else rest

abbrev pub send_to : ℕ → Channel → Message → ℕ → Result Accepted
send_to now ch0 msg fuel =
    let ch = record ch0 { send_queue = clear_warning now ch0.send_queue } in
    if not ch.should_send_block && is_full ch.send_queue
    then done (
        accepted (record ch { send_queue = count_dropped now ch.send_queue }) false
          (if ch.should_block_fail then ipc_fail else ipc_ok))
    else wait_for_space (suc fuel) ch msg

unfoldable pub socket_send : ℕ → Channel → Message → ℕ → Result Accepted
socket_send now ch msg fuel =
    if ltb maxmsg (length msg.body)
    then done (accepted ch false ipc_fail)
    else if not (is_wconn ch.ch_status)
    then done (accepted ch false ipc_fail)
    else (socket_resume_io ch >>= λ o. send_to now o.channel msg fuel)

-- The small operations, with what they answer.
abbrev pub socket_is_message_pending : Channel → Result (Channel × Bool)
socket_is_message_pending ch = do
  r ← socket_resume_io_read ch true
  o ← socket_resume_io r.channel
  done (o.channel, ltb 0 o.channel.recv_queue.current_qlen || not (is_rconn o.channel.ch_status))

abbrev pub socket_is_output_pending : Channel → Result (Channel × Bool)
socket_is_output_pending ch = do
  o ← socket_resume_io ch
  done (o.channel, is_wconn o.channel.ch_status && ltb 0 o.channel.send_queue.current_qlen)

abbrev pub socket_is_sendq_full : Channel → Result (Channel × Bool)
socket_is_sendq_full ch = do
  o ← socket_resume_io ch
  done (o.channel, o.channel.send_queue.current_qlen == o.channel.send_queue.max_qlen)

abbrev pub socket_is_recvq_full : Channel → Result (Channel × Bool)
socket_is_recvq_full ch = do
  o ← socket_resume_io ch
  done (o.channel, o.channel.recv_queue.current_qlen == o.channel.recv_queue.max_qlen)

abbrev pub socket_get_chan_status : Channel → Result (Channel × Status)
socket_get_chan_status ch = do o ← socket_resume_io ch; done (o.channel, o.channel.ch_status)

abbrev pub socket_disconnect : Channel → Result Channel
socket_disconnect ch =
    if is_wconn ch.ch_status
    then (socket_resume_io ch >>= λ o. done (set_status o.channel disconnect))
    else done (set_status ch disconnect)
