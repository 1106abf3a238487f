-- ===== src/Ws/Invariant.antt =====
-- What every handler of WsConnection.cpp keeps: the queue in its order, one write and one read at a
-- time, nothing queued where nothing would take it out, and a timeout on every live connection.
use ian.Prelude.{
  ℕ, ◌+◌, ◌≤◌, ◌≡◌, refl, Bool, true, false, not, ◌||◌, some, none, List, [], ◌∷◌, ◌++◌, Bytes,
  if◌then◌else◌, Bool-cases, inl, inr, Run, ok, arith,
}
use ian.Error.{ErrorCode, Status, is_connection_canceled_error}
use ian.Message.{empty_message, from_vector}
use ian.Message.Fifo.{Queues, Queues-empty, Queues-push, Queues-try_pop}
use ian.Ws.State.{
  Op, ssl_handshake, request_read, ws_accept, message_read, message_write, ssl_shutdown, posted,
  WsConnection, start, abort, shutdown, on_posted, handle_read_error, handle_write_error,
}
use ian.Ws.Connection.{write_next, on_write_message}

abbrev pub tally : (Op → Bool) → List Op → ℕ
tally p [] = 0
tally p (o ∷ os) = (if p o then 1 else 0) + tally p os

abbrev pub is_writer : Op → Bool
is_writer (message_write _) = true
is_writer _ = false

-- The operations that read from the stream: the handshakes, the request and the messages.
abbrev pub is_reader : Op → Bool
is_reader ssl_handshake = true
is_reader request_read = true
is_reader ws_accept = true
is_reader message_read = true
is_reader _ = false

abbrev pub is_shut : Op → Bool
is_shut ssl_shutdown = true
is_shut _ = false

-- Tasks are posted for messages with a payload only.
abbrev pub Posts : Op → Type 0
Posts (posted m) = (b : Bytes) × (m ≡ from_vector b)
Posts _ = Unit

abbrev pub AllPost : List Op → Type 0
AllPost [] = Unit
AllPost (o ∷ os) = Posts o × AllPost os

abbrev pub one_if : Bool → ℕ
one_if b = if b then 1 else 0

-- `w` and `r` count the writes and the reads that have completed, and whose handlers are running.
pub record Inv (w r : ℕ) (waiting : List Bytes) (c : WsConnection) : Type 0 where
  pub queued : Queues c.message_queue waiting
  pub writers : w + tally is_writer c.pending ≤ one_if c.is_writing
  pub readers : r + tally is_reader c.pending ≤ 1
  pub shutdowns : tally is_shut c.pending ≤ one_if c.shutting_down
  pub posts : AllPost c.pending
  pub idle : c.is_writing ≡ false → waiting ≡ []
  pub ended : (c.dropped || c.shutting_down) ≡ true → waiting ≡ []
  pub socket : c.socket_open ≡ not c.dropped
  pub guarded : (c.dropped || c.shutting_down) ≡ false → c.timer.armed ≡ true

-- A handler that returned: the state, and what waits in its queue.
abbrev pub Kept : Run WsConnection → Type 0
Kept result = (c : WsConnection) × (waiting : List Bytes) × (result ≡ ok c) × Inv 0 0 waiting c

pub weaken :
    (w r w' r' : ℕ) (waiting : List Bytes) (c : WsConnection)
    → w' ≤ w
    → r' ≤ r
    → Inv w r waiting c
    → Inv w' r' waiting c
weaken w r w' r' waiting c h k v = ground arith

pub abort-Inv :
    (w r : ℕ) (waiting : List Bytes) (c : WsConnection) → Inv w r waiting c → Inv w r [] (abort c)
unfolding abort
abort-Inv w r waiting c v = ground (arith, Queues-empty)

pub shutdown-Inv :
    (w r : ℕ) (waiting : List Bytes) (c : WsConnection)
    → Inv w r waiting c
    → Inv w r [] (shutdown c)
unfolding shutdown
shutdown-Inv w r waiting c v = ground (arith, Queues-empty)

-- What waits behind an error: a canceled operation leaves the queue alone.
abbrev pub left_waiting : ErrorCode → List Bytes → List Bytes
left_waiting e waiting = if is_connection_canceled_error e then waiting else []

pub handle_read_error-Kept :
    (e : ErrorCode) (w r : ℕ) (waiting : List Bytes) (c : WsConnection)
    → Inv w r waiting c
    → Kept (ok (handle_read_error e c))
unfolding handle_read_error
handle_read_error-Kept e w r waiting c v =
    (handle_read_error e c, left_waiting e waiting, refl, ground (arith, Queues-empty))

pub on_write_message-error :
    (e : ErrorCode) (waiting : List Bytes) (c : WsConnection)
    → Inv 1 0 waiting c
    → Kept (on_write_message (some e) c)
unfolding on_write_message
on_write_message-error e waiting c v = (
  handle_write_error e (record c { message_outbound = empty_message }),
  left_waiting e waiting,
  refl,
  ground (arith, Queues-empty),
)

-- A message given to the stream.
abbrev written : Bytes → WsConnection → WsConnection
written b c = record (start (message_write b) c) {
  message_outbound = from_vector b;
  sent = c.sent ++ from_vector b ∷ [];
}

pub write_next-Inv :
    (waiting : List Bytes) (c : WsConnection) → Inv 1 0 waiting c → Kept (write_next c)
unfolding write_next
write_next-Inv [] c v = (
  record c { is_writing = false },
  [],
  rw (Queues-try_pop [] c.message_queue v.queued),
  ground arith,
)
write_next-Inv (b ∷ waiting) c v =
    let (q, popped, rest) = Queues-try_pop (b ∷ waiting) c.message_queue v.queued in
    (written b (record c { message_queue = q }), waiting, rw popped, ground arith)

pub on_write_message-Kept :
    (status : Status) (waiting : List Bytes) (c : WsConnection)
    → Inv 1 0 waiting c
    → Kept (on_write_message status c)
on_write_message-Kept (some e) waiting c v = on_write_message-error e waiting c v
on_write_message-Kept none waiting c v =
    unfold on_write_message in
    write_next-Inv waiting (record c { message_outbound = empty_message }) (ground arith)

pub on_posted-Kept :
    (b : Bytes) (waiting : List Bytes) (c : WsConnection)
    → Inv 0 0 waiting c
    → Kept (on_posted (from_vector b) c)
unfolding on_posted
on_posted-Kept b waiting c v = elim (Bool-cases (c.dropped || c.shutting_down)) [
  | inl over ↦ (c, waiting, rw over, v)
  | inr live ↦ elim (Bool-cases c.is_writing) [
    | inl busy ↦
        let (q, pushed, rest) = Queues-push b c.message_queue waiting v.queued in
        (record c { message_queue = q }, waiting ++ b ∷ [], rw (live, busy, pushed), ground arith)
    | inr quiet ↦
        (written b (record c { is_writing = true }), waiting, rw (live, quiet), ground arith)
  ]
]
