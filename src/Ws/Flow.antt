-- ===== src/Ws/Flow.antt =====
-- What the handlers of WsConnection.cpp that do not write do to the outbound messages.
use ian.Prelude.{
  ◌≡◌, ◌∙◌, ◌⊎◌, inl, inr, Bool, true, not, ◌||◌, none, some, ◌++◌, Bytes, length, Bool-cases, ℕ,
  arith,
}
use ian.Error.{ErrorCode, Status}
use ian.Front.{World}
use ian.Message.{empty_queue, empty_message}
use ian.Ws.State.{WsConnection, count_message, handle_read_error, handle_write_error}
use ian.Ws.Safety.{on_read-eq}
use ian.Ws.Connection.{
  on_timeout, on_shutdown, on_ssl_handshake, on_read_request, on_ws_handshake, take_message,
  on_read,
}

abbrev pub has_ended : WsConnection → Bool
has_ended c = c.dropped || c.shutting_down

-- Nothing is written, and the queue is left alone or thrown away at the end of the connection.
pub record Flow (c c' : WsConnection) : Type 0 where
  pub same_sent : c'.sent ≡ c.sent
  pub same_queue :
      (c'.message_queue ≡ c.message_queue)
      ⊎ ((c'.message_queue ≡ empty_queue) × (has_ended c' ≡ true))
  pub still : has_ended c ≡ true → has_ended c' ≡ true
  pub socket : c'.socket_open ≡ not c'.dropped

Flow-trans : {a b c : WsConnection} → Flow a b → Flow b c → Flow a c
Flow-trans f g = record {
  same_sent = g.same_sent ∙ f.same_sent;
  same_queue = elim g.same_queue [
    | inr e ↦ inr e
    | inl e ↦ elim f.same_queue [ inl k ↦ inl (e ∙ k) | inr (k, o) ↦ inr (e ∙ k, g.still o) ]
  ];
  still = λ o. g.still (f.still o);
  socket = g.socket;
}

pub on_timeout-Flow :
    (status : Status) (c : WsConnection)
    → c.socket_open ≡ not c.dropped
    → Flow c (on_timeout status c)
unfolding on_timeout
on_timeout-Flow status c s = ground arith

pub on_shutdown-Flow :
    (status : Status) (c : WsConnection)
    → c.socket_open ≡ not c.dropped
    → Flow c (on_shutdown status c)
unfolding on_shutdown
on_shutdown-Flow status c s = ground arith

pub on_ssl_handshake-Flow :
    (status : Status) (c : WsConnection)
    → c.socket_open ≡ not c.dropped
    → Flow c (on_ssl_handshake status c)
unfolding on_ssl_handshake
on_ssl_handshake-Flow status c s = ground arith

handle_error-Flow :
    (e : ErrorCode) (c : WsConnection)
    → c.socket_open ≡ not c.dropped
    → Flow c (handle_read_error e c)
unfolding handle_read_error
handle_error-Flow e c s = ground arith

pub write_error-Flow :
    (e : ErrorCode) (c : WsConnection)
    → c.socket_open ≡ not c.dropped
    → Flow c (handle_write_error e (record c { message_outbound = empty_message }))
unfolding handle_write_error
write_error-Flow e c s = ground arith

pub on_read_request-Flow :
    (w : World) (status : Status) (upgrade : Bool) (bytes : Bytes) (c : WsConnection)
    → c.socket_open ≡ not c.dropped
    → Flow c (on_read_request w status upgrade bytes c)
on_read_request-Flow w (some e) upgrade bytes c s =
    unfold on_read_request in handle_error-Flow e c s
on_read_request-Flow w none upgrade bytes c s = unfold on_read_request in ground arith

pub on_ws_handshake-Flow :
    (w : World) (status : Status) (c : WsConnection)
    → c.socket_open ≡ not c.dropped
    → Flow c (on_ws_handshake w status c)
unfolding on_ws_handshake
on_ws_handshake-Flow w status c s = ground arith

count_message-Flow :
    (w : World) (n : ℕ) (c : WsConnection)
    → c.socket_open ≡ not c.dropped
    → Flow c (count_message w n c).0
unfolding count_message
count_message-Flow w n c s = ground arith

take_message-Flow :
    (w : World) (got_binary : Bool) (n : ℕ) (c : WsConnection)
    → c.socket_open ≡ not c.dropped
    → Flow c (take_message w got_binary n c)
unfolding take_message
take_message-Flow w got_binary n c s = ground arith

pub on_read-Flow :
    (w : World) (status : Status) (got_binary : Bool) (bytes : Bytes) (c : WsConnection)
    → c.socket_open ≡ not c.dropped
    → Flow c (on_read w status got_binary bytes c)
on_read-Flow w (some e) got_binary bytes c s = unfold on_read in handle_error-Flow e c s
on_read-Flow w none got_binary bytes c s =
    let committed = record c { read_buffer = c.read_buffer ++ bytes } in
    let counted = count_message w (length bytes) committed in
    let f = count_message-Flow w (length bytes) committed s in
    let g : Flow c counted.0 = record {
      same_sent = f.same_sent;
      same_queue = f.same_queue;
      still = f.still;
      socket = f.socket;
    } in
    rw (on_read-eq w got_binary bytes c) (elim (Bool-cases counted.1) [
      | inl killed ↦ rw killed g
      | inr kept ↦
          rw kept (Flow-trans g (take_message-Flow w got_binary (length bytes) counted.0 f.socket))
    ])
