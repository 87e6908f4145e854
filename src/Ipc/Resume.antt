-- ===== src/Ipc/Resume.antt =====
-- Reading and writing together, and the operations of a channel's client: `socket_resume_io`,
-- `socket_send` and `socket_recv` of lib/clplumbing/ipcsocket.c, and its small operations.
use cluster_glue_import.Prelude.{
  ℕ, zero, suc, ◌+◌, Bool, false, ◌&&◌, ◌||◌, List, [], ◌∷◌, ◌++◌, ltb, if◌then◌else◌, length,
}
use cluster_glue_import.Message.{Result, done, unfinished, ◌>>=◌}
use cluster_glue_import.Ipc.{Rc, ipc_ok, ipc_broken, is_ok, is_rconn}
use cluster_glue_import.Ipc.Channel.{Received, bytes, Channel}
use cluster_glue_import.Ipc.Read.{Outcome, outcome, socket_resume_io_read}
use cluster_glue_import.Ipc.Write.{socket_resume_io_write}

-- The bytes that are on their way, whatever their portions.
unfoldable pub incoming : List Received → List ℕ
incoming [] = []
incoming (bytes s ∷ rest) = s ++ incoming rest
incoming (_ ∷ rest) = incoming rest

-- The variables of the loop of `socket_resume_io`.
pub record Loop : Type 0 where
  pub channel : Channel
  pub nbytes_r : ℕ
  pub nwmsg : ℕ
  pub rc1 : Rc
  pub rc2 : Rc
  pub ok_once : Bool

unfoldable pub read_part : Loop → Result Loop
read_part l =
    if ltb 0 l.nbytes_r
    then (socket_resume_io_read l.channel false >>= λ r.
        done (record l { channel = r.channel; nbytes_r = r.nbytes; rc1 = r.rc }))
    else done l

unfoldable pub write_part : Loop → Result Loop
write_part l =
    if ltb 0 l.nwmsg
    then (socket_resume_io_write l.channel >>= λ w.
        done (record l { channel = w.channel; nwmsg = w.nmsg; rc2 = w.rc }))
    else done l

abbrev pub noted : Loop → Loop
noted l = record l { ok_once = l.ok_once || is_ok l.rc1 || is_ok l.rc2 }

abbrev pub goes_on : Loop → Bool
goes_on l = (ltb 0 l.nbytes_r || ltb 0 l.nwmsg) && is_rconn l.channel.ch_status

unfoldable pub resume_loop : ℕ → Loop → Result Loop
resume_loop zero l = unfinished
resume_loop (suc fuel) l = do
  l1 ← read_part l
  l2 ← write_part l1
  let rest = resume_loop fuel (noted l2) in if goes_on l2 then rest else done (noted l2)

abbrev pub resume_rc : Loop → Rc
resume_rc l =
    if is_rconn l.channel.ch_status
    then if is_ok l.rc1 then l.rc2 else l.rc1
    else if l.ok_once
    then ipc_ok
    else ipc_broken

abbrev pub loop_of : Channel → Loop
loop_of ch = record {
  channel = ch;
  nbytes_r = 1;
  nwmsg = 1;
  rc1 = ipc_ok;
  rc2 = ipc_ok;
  ok_once = false;
}

-- A round after the first one takes a byte of the input or sends a message.
abbrev pub rounds : Channel → ℕ
rounds ch = length (incoming ch.sock.input) + length ch.send_queue.queue

unfoldable pub socket_resume_io : Channel → Result Outcome
socket_resume_io ch =
    if is_rconn ch.ch_status
    then (resume_loop (suc (rounds ch)) (loop_of ch) >>= λ l.
        done (outcome l.channel (resume_rc l)))
    else done (outcome ch ipc_broken)
