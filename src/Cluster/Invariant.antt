-- ===== src/Cluster/Invariant.antt =====
-- What every handler of ClusterConnection.cpp keeps: the queue in its order, one write and one read at
-- a time, and nothing queued where nothing would take it out.
use ian.Prelude.{
  ℕ, ◌+◌, ◌≤◌, ◌≡◌, inl, inr, Bool, true, false, not, ◌||◌, List, [], ◌∷◌, ◌++◌, Bytes,
  if◌then◌else◌, Bool-cases, Run, ok, arith,
}
use ian.Error.{ErrorCode, is_connection_canceled_error}
use ian.Message.{from_vector}
use ian.Message.Fifo.{Queues, Queues-empty, Queues-push, Queues-try_pop}
use ian.Cluster.State.{
  Op, ssl_handshake, handshake_write, handshake_read, chunk_read, message_write, ssl_shutdown,
  posted, ClusterConnection, start, length_le, link, abort, shutdown, on_posted, handle_read_error,
  handle_write_error,
}
use ian.Cluster.Connection.{write_next}

abbrev pub tally : (Op → Bool) → List Op → ℕ
tally p [] = 0
tally p (o ∷ os) = (if p o then 1 else 0) + tally p os

-- The operations that hold the right to write: the handshakes, and the write of a message.
abbrev pub is_writer : Op → Bool
is_writer (ssl_handshake _) = true
is_writer (handshake_write _) = true
is_writer handshake_read = true
is_writer (message_write _ _) = true
is_writer _ = false

-- Those that hold the right to read into the buffer.
abbrev pub is_reader : Op → Bool
is_reader (ssl_handshake _) = true
is_reader (handshake_write _) = true
is_reader handshake_read = true
is_reader (chunk_read _) = true
is_reader _ = false

abbrev pub is_shut : Op → Bool
is_shut ssl_shutdown = true
is_shut _ = false

-- Tasks are posted for messages with a payload only.
abbrev pub Posts : Op → Type 0
Posts (posted m) = (b : Bytes) × (m ≡ from_vector b)
Posts _ = Unit

abbrev pub AllPost : List Op → Type 0
AllPost [] = Unit
AllPost (o ∷ os) = Posts o × AllPost os

abbrev pub one_if : Bool → ℕ
one_if b = if b then 1 else 0

-- `w` and `r` count the operations with the right to write and to read that have completed, and
-- whose handlers are running.
pub record Inv (w r : ℕ) (waiting : List Bytes) (c : ClusterConnection) : Type 0 where
  pub queued : Queues c.message_queue waiting
  pub writers : w + tally is_writer c.pending ≤ one_if c.is_writing
  pub readers : r + tally is_reader c.pending ≤ 1
  pub shutdowns : tally is_shut c.pending ≤ one_if c.shutting_down
  pub posts : AllPost c.pending
  pub idle : c.is_writing ≡ false → waiting ≡ []
  pub ended : (c.dropped || c.shutting_down) ≡ true → waiting ≡ []
  pub socket : c.socket_open ≡ not c.dropped

-- The handlers that drop the connection leave nothing in the queue.
pub abort-Inv :
    (w r : ℕ) (waiting : List Bytes) (c : ClusterConnection)
    → Inv w r waiting c
    → Inv w r [] (abort c)
unfolding abort
abort-Inv w r waiting c v = ground (arith, Queues-empty)

pub shutdown-Inv :
    (w r : ℕ) (waiting : List Bytes) (c : ClusterConnection)
    → Inv w r waiting c
    → Inv w r [] (shutdown c)
unfolding shutdown
shutdown-Inv w r waiting c v = ground (arith, Queues-empty)

-- What waits behind an error: a canceled operation leaves the queue alone.
abbrev pub left_waiting : ErrorCode → List Bytes → List Bytes
left_waiting e waiting = if is_connection_canceled_error e then waiting else []

pub handle_write_error-Inv :
    (e : ErrorCode) (w r : ℕ) (waiting : List Bytes) (c : ClusterConnection)
    → Inv w r waiting c
    → Inv w r (left_waiting e waiting) (handle_write_error e c)
unfolding handle_write_error
handle_write_error-Inv e w r waiting c v = ground (arith, Queues-empty)

pub handle_read_error-Inv :
    (e : ErrorCode) (w r : ℕ) (waiting : List Bytes) (c : ClusterConnection)
    → Inv w r waiting c
    → Inv w r (left_waiting e waiting) (handle_read_error e c)
unfolding handle_read_error
handle_read_error-Inv e w r waiting c v = ground (arith, Queues-empty)

-- A handler that returned: the state, and what waits in its queue.
abbrev pub Kept : Run ClusterConnection → Type 0
Kept result = (c : ClusterConnection) × (waiting : List Bytes) × (result ≡ ok c) × Inv 0 0 waiting c

-- A message given to the socket.
abbrev written : Bytes → ClusterConnection → ClusterConnection
written b c = record (start (message_write (link c.safe_link) (length_le b ++ b)) c) {
  message_outbound = from_vector b;
  out_message_len_le = length_le b;
  sent = c.sent ++ from_vector b ∷ [];
}

pub write_next-Inv :
    (waiting : List Bytes) (c : ClusterConnection) → Inv 1 0 waiting c → Kept (write_next c)
unfolding write_next
write_next-Inv [] c v = (
  record c { is_writing = false },
  [],
  rw (Queues-try_pop [] c.message_queue v.queued),
  ground arith,
)
write_next-Inv (b ∷ waiting) c v =
    let (q, popped, rest) = Queues-try_pop (b ∷ waiting) c.message_queue v.queued in
    (written b (record c { message_queue = q }), waiting, rw popped, ground arith)

pub on_posted-Inv :
    (b : Bytes) (waiting : List Bytes) (c : ClusterConnection)
    → Inv 0 0 waiting c
    → Kept (on_posted (from_vector b) c)
unfolding on_posted
on_posted-Inv b waiting c v = elim (Bool-cases (c.dropped || c.shutting_down)) [
  | inl over ↦ (c, waiting, rw over, v)
  | inr open_ ↦ elim (Bool-cases c.is_writing) [
    | inl busy ↦
        let (q, pushed, rest) = Queues-push b c.message_queue waiting v.queued in
        (record c { message_queue = q }, waiting ++ b ∷ [], rw (open_, busy, pushed), ground arith)
    | inr quiet ↦
        (written b (record c { is_writing = true }), waiting, rw (open_, quiet), ground arith)
  ]
]

pub weaken :
    (w r w' r' : ℕ) (waiting : List Bytes) (c : ClusterConnection)
    → w' ≤ w
    → r' ≤ r
    → Inv w r waiting c
    → Inv w' r' waiting c
weaken w r w' r' waiting c h k v = ground arith
