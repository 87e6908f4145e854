-- ===== src/Lib.antt =====
-- Cluster glue: the parts of the cluster's infrastructure that keep track of nodes and replies, of
-- time, of encodings, and of the operations on local resources, with what holds of them.
--
-- The program's parts, and the file for each.
--
-- * Replytrack models lib/clplumbing/replytrack.c. Replytrack/Tables has the two hash tables of a
--   `node_tables`, by name and by uuid, with their counters; Replytrack/Nodes the membership
--   (`nodetrack_*`) with its callbacks; Replytrack/Replies the replies that are waited for
--   (`replytrack_*`), filled from a membership; Replytrack/Intersection the nodes that several
--   memberships have in common. Tables/Keys reads the tables as a set of keys, which is the abstract
--   view the other proofs use.
-- * Uuid models the comparison, packing and hashing of lib/clplumbing/cl_uuid.c and
--   replace/uuid_parse.c. Its equality is the key test of the tables above.
-- * Base64 models lib/clplumbing/base64.c.
-- * Longclock models lib/clplumbing/longclock.c for a `clock_t` of 32 bits. The daemon's timestamps
--   go through its conversions.
-- * Lrmd models the operations of lrm/lrmd/lrmd.c, the local resource manager: Lrmd/Ops the queues
--   of a resource, and cancelling and flushing; Lrmd/Done the end of an operation (`on_op_done`);
--   Lrmd/Perform the start of one (`perform_op`); Lrmd/Handlers and Lrmd/Request the requests of
--   clients; Lrmd/Ended the end of an operation's process (`on_ra_proc_finished`). They call
--   one another as in the source: a request flushes or queues, `perform_op` starts the head of the
--   queue or ends it by `on_op_done`, and that records, repeats and tells. Lrmd/Messages is what they
--   need of a message; Lrmd/HaMessages and Lrmd/HaFields give it the messages of Message, whose
--   fields that the daemon writes are strings (Lrmd/Named).
-- * Raexec models how the plugins lib/plugins/lrm/raexec*.c map the exit codes that Lrmd/Ended gets.
-- * Message models the messages that the parts exchange: Message itself the fields of lib/clplumbing/
--   cl_msg.c with the field types of cl_msg_types.c, Message/Ints and Message/Access the numbers,
--   uuids and children in them, and Message/Netstring (encoding), Message/Scan and Message/Parse
--   (decoding) the netstring form of cl_netstring.c and cl_msg_types.c. Message/Wire writes this form
--   down without buffers.
-- * Proctrack models lib/clplumbing/proctrack.c, which kills a process that does not end in time. The
--   kill sequence is the one that Lrmd/Perform makes for an operation.
-- * Ipc models the socket channels of lib/clplumbing/ipcsocket.c, which carry the messages between
--   processes, and the receive buffers of ocf_ipc.c: Ipc/Pool the buffers (`ipc_bufpool_*`),
--   Ipc/Channel a channel and its socket, Ipc/Read `socket_resume_io_read`, Ipc/Write
--   `socket_resume_io_write`, Ipc/Resume the loop of the two, and Ipc/Client what a client calls
--   (`socket_send`, `socket_recv`). The abstract view is a queue: Ipc/Owes has the messages that a
--   channel owes its client, Ipc/Unsent the bytes that it is still to send, and Ipc/Delivery joins
--   two channels. The others are about one function each: Ipc/Update, Ipc/Space, Ipc/Answers,
--   Ipc/Reading, Ipc/Sending, Ipc/Writing, Ipc/Resuming, Ipc/Giving and Ipc/Fifo. The answers of
--   `recv`, `send` and `poll` are lists in the socket, and a script that is at its end answers
--   EAGAIN.
-- * Prelude has the Boolean tests, lists and integers that all share.
--
-- How code becomes a definition. A C object is a record, a change is a new record, and a callback
-- that the code calls is an entry in a list of calls that the function returns. A failing function
-- returns an option, a Boolean or a result of its own. What the code gets from elsewhere is an
-- argument: whether memory is at hand, the value of the clock, the id of a timer, the answer of
-- `fork`; in Ipc and Message memory is taken to be at hand. GLib's hash tables are a parameter, the
-- record `HashTable` of Prelude/Table with the laws that GLib documents, and have an instance in the
-- tests. The fields of a message that the resource manager uses are the record `Messages` of
-- Lrmd/Messages; the messages of lib/clplumbing/cl_msg.c, as Message has them, fill it in
-- Lrmd/HaFields. Bytes are numbers below 256; machine arithmetic
-- that can wrap has its `% 2 ^ w` written out, and counters that may become negative are ℤ. A pointer
-- into a text is the list of the bytes from there to the end of the memory, and a read behind it, an
-- int that overflows and an assertion that fails are the result `fault`.
--
-- Fuel. The loop of `flush_all` goes back to the head of the list after each removal, and gets one
-- round more than n + n * n for n operations; the loop of `perform_op` gets one more than the length
-- of the queue; the loops of the decoder of netstrings and of packed lists get one more than the
-- number of bytes, and so does the one that takes messages out of a buffer. A read of a channel calls
-- itself after a reset only, and a round of the loop over the messages takes an answer of `send`: they
-- get one more than the answers that are left. A round of `socket_resume_io` takes a byte or sends a
-- message, and it gets one more than there are of both. The loop in which a blocking `socket_send`
-- waits for space has no bound; its fuel is an argument, which does not matter to a channel that does
-- not block. That this is enough is part of what is shown of them. Digits are counted and
-- written on the number itself as fuel. All other loops are over lists.
--
-- Not modelled: logging and audits, which change no state that is read; sockets, pipes, processes,
-- plugins and signals, which are the system's; and the string form of messages, their compression and
-- authentication, the making, accepting and authenticating of channels and the release of their
-- memory, the client library, plugin loading and fencing. Of lrmd.c, the registration of clients
-- and resources, the queries, the parameters of a resource and the output of its agent are left out.
-- In the requests that cancel, flush and delete, a resource that is not found is answered by an error
-- before the definitions here begin.
pub mod Prelude
pub mod Uuid
pub mod Replytrack
pub mod Base64
pub mod Longclock
pub mod Lrmd
pub mod Message
pub mod Proctrack
pub mod Ipc
pub mod Raexec
