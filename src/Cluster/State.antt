-- ===== src/Cluster/State.antt =====
-- The state of a ClusterConnection and the operations that its handlers share:
-- server/common/src/cluster/ClusterConnection.hpp and ClusterConnection.cpp. The handlers are in
-- Cluster/Connection.
-- A handler runs in the strand, so one at a time; it is a function of the state. `pending` holds the
-- asynchronous operations that were started and have not completed, each with what its completion
-- handler needs. `processed` and `sent` record the calls of `process_message`, whose body is empty,
-- and of `do_write_message`, oldest first. The timer of the class is never armed, and logging has no
-- effect on the state.
use ian.Prelude.{
  ℕ, ◌%◌, Bool, true, false, ◌||◌, not, none, some, List, [], ◌∷◌, ◌++◌, Bytes, length,
  if◌then◌else◌, u32_mod, le_bytes, Run, ok, ◌>>=◌,
}
use ian.Error.{ErrorCode, Status, is_connection_reset_error, is_connection_canceled_error}
use ian.Message
use ian.Message.{Message, MessageQueue, empty_message, empty_queue, from_vector, is_empty}

pub data SslRole : Type 0 where
  client server : SslRole

pub data Link : Type 0 where
  ssl clear : Link

-- An asynchronous operation, or a task posted to the strand.
pub data Op : Type 0 where
  ssl_handshake : SslRole → Op
  handshake_write : Bytes → Op
  handshake_read : Op
  chunk_read : Link → Op
  message_write : Link → Bytes → Op
  ssl_shutdown : Op
  posted : Message → Op

pub record ClusterConnection : Type 0 where
  pub dropped : Bool
  pub shutting_down : Bool
  pub is_writing : Bool
  pub safe_link : Bool
  pub downgraded : Bool
  pub socket_open : Bool
  pub verify_peer : Bool
  pub message_queue : MessageQueue
  pub message_outbound : Message
  pub out_message_len_le : Bytes
  pub in_message_len : ℕ
  pub read_buffer : Bytes
  pub pending : List Op
  pub processed : List Message
  pub sent : List Message

abbrev pub start : Op → ClusterConnection → ClusterConnection
start op c = record c { pending = op ∷ c.pending }

-- The constructor, on an open socket. `safe_link_` is not initialised before `run`.
abbrev pub new_connection : Bool → ClusterConnection
new_connection uninitialised = record {
  dropped = false;
  shutting_down = false;
  is_writing = false;
  safe_link = uninitialised;
  downgraded = false;
  socket_open = true;
  verify_peer = false;
  message_queue = empty_queue;
  message_outbound = empty_message;
  out_message_len_le = [];
  in_message_len = 0;
  read_buffer = [];
  pending = [];
  processed = [];
  sent = [];
}

-- `verified` is the status of `set_verify_mode`: a failure is logged only.
unfoldable pub run : SslRole → Bool → Status → ClusterConnection → ClusterConnection
run role safe_link verified c =
    if not c.socket_open
    then c
    else start (ssl_handshake role) (record c {
      safe_link = safe_link;
      verify_peer = elim verified [ none ↦ true | some e ↦ c.verify_peer ];
      is_writing = true;
    })

unfoldable pub send_message : Message → ClusterConnection → ClusterConnection
unfolding is_empty
send_message m c = if is_empty m then c else start (posted m) c

unfoldable pub abort : ClusterConnection → ClusterConnection
abort c =
    if c.dropped
    then c
    else record c { message_queue = empty_queue; socket_open = false; dropped = true }

unfoldable pub shutdown : ClusterConnection → ClusterConnection
unfolding abort
shutdown c =
    if c.dropped || c.shutting_down
    then c
    else if c.downgraded
    then abort c
    else let c' = record c { message_queue = empty_queue } in
      if not c'.socket_open then c' else record (start ssl_shutdown c') { shutting_down = true }

abbrev pub link : Bool → Link
link true = Link.ssl
link false = Link.clear

unfoldable pub read_next : ClusterConnection → ClusterConnection
read_next c = start (chunk_read (link c.safe_link)) c

-- `out_message_len_le_`: the size as a uint32_t, in the bytes of memory.
abbrev pub length_le : Bytes → Bytes
length_le bytes = le_bytes 4 (length bytes % u32_mod)

unfoldable pub do_write_message : Message → ClusterConnection → Run ClusterConnection
unfolding Message.payload
do_write_message m c = do
  bytes ← Message.payload m
  let c' = record c {
    message_outbound = m;
    out_message_len_le = length_le bytes;
    sent = c.sent ++ m ∷ [];
  }
  ok (start (message_write (link c.safe_link) (length_le bytes ++ bytes)) c')

-- The task that `send_message` posts.
unfoldable pub on_posted : Message → ClusterConnection → Run ClusterConnection
unfolding do_write_message Message.push
on_posted m c =
    if c.dropped || c.shutting_down
    then ok c
    else if not c.is_writing
    then do_write_message m (record c { is_writing = true })
    else Message.push m c.message_queue >>= λ q. ok (record c { message_queue = q })

unfoldable pub on_shutdown : Status → ClusterConnection → ClusterConnection
on_shutdown ec c = if c.dropped then c else record c { socket_open = false; dropped = true }

-- `handle_read_error` and `handle_write_error` differ in what they log.
abbrev handle_error : ErrorCode → ClusterConnection → ClusterConnection
handle_error e c =
    if c.dropped
    then c
    else if is_connection_reset_error e
    then abort c
    else if is_connection_canceled_error e
    then c
    else shutdown c

unfoldable pub handle_read_error : ErrorCode → ClusterConnection → ClusterConnection
unfolding abort shutdown
handle_read_error e c = handle_error e c

unfoldable pub handle_write_error : ErrorCode → ClusterConnection → ClusterConnection
unfolding abort shutdown
handle_write_error e c = handle_error e c
