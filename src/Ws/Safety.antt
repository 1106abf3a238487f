-- ===== src/Ws/Safety.antt =====
-- The handlers of WsConnection.cpp that read or wait, one by one.
use ian.Prelude.{
  ℕ, ◌≡◌, refl, Bool, true, ◌||◌, some, none, List, [], ◌++◌, Bytes, length, if◌then◌else◌,
  Bool-cases, inl, inr, ok, arith,
}
use ian.Error.{Status}
use ian.Front.{World}
use ian.Message.Fifo.{Queues-empty}
use ian.Ws.State.{WsConnection, count_message}
use ian.Ws.Connection.{
  on_timeout, on_shutdown, on_ssl_handshake, on_read_request, on_ws_handshake, refresh_timeout,
  take_message, on_read,
}
use ian.Ws.Invariant.{Inv, Kept, weaken, handle_read_error-Kept}

-- What waits behind a handler that ends the connection or leaves its queue alone.
abbrev pub left : WsConnection → List Bytes → List Bytes
left c waiting = if c.dropped || c.shutting_down then [] else waiting

pub on_timeout-Kept :
    (status : Status) (waiting : List Bytes) (c : WsConnection)
    → Inv 0 0 waiting c
    → Kept (ok (on_timeout status c))
unfolding on_timeout
on_timeout-Kept status waiting c v =
    (on_timeout status c, left (on_timeout status c) waiting, refl, ground (arith, Queues-empty))

pub on_shutdown-Kept :
    (status : Status) (waiting : List Bytes) (c : WsConnection)
    → c.shutting_down ≡ true
    → Inv 0 0 waiting c
    → Kept (ok (on_shutdown status c))
unfolding on_shutdown
on_shutdown-Kept status waiting c s v = (on_shutdown status c, waiting, refl, ground arith)

pub on_ssl_handshake-Kept :
    (status : Status) (waiting : List Bytes) (c : WsConnection)
    → Inv 0 1 waiting c
    → Kept (ok (on_ssl_handshake status c))
unfolding on_ssl_handshake
on_ssl_handshake-Kept status waiting c v = (
  on_ssl_handshake status c,
  left (on_ssl_handshake status c) waiting,
  refl,
  ground (arith, Queues-empty),
)

pub on_read_request-Kept :
    (w : World) (status : Status) (upgrade : Bool) (bytes : Bytes) (waiting : List Bytes)
    (c : WsConnection)
    → Inv 0 1 waiting c
    → Kept (ok (on_read_request w status upgrade bytes c))
on_read_request-Kept w (some e) upgrade bytes waiting c v =
    unfold on_read_request in handle_read_error-Kept e 0 1 waiting c v
on_read_request-Kept w none upgrade bytes waiting c v = (
  on_read_request w none upgrade bytes c,
  left (on_read_request w none upgrade bytes c) waiting,
  refl,
  unfold on_read_request in ground (arith, Queues-empty),
)

pub on_ws_handshake-Kept :
    (w : World) (status : Status) (waiting : List Bytes) (c : WsConnection)
    → Inv 0 1 waiting c
    → Kept (ok (on_ws_handshake w status c))
unfolding on_ws_handshake
on_ws_handshake-Kept w status waiting c v = (
  on_ws_handshake w status c,
  left (on_ws_handshake w status c) waiting,
  refl,
  ground (arith, Queues-empty),
)

-- Counting a message ends the connection or leaves all but the counters alone.
count_message-Inv :
    (w : World) (n r : ℕ) (waiting : List Bytes) (c : WsConnection)
    → Inv 0 r waiting c
    → Inv 0 r (left (count_message w n c).0 waiting) (count_message w n c).0
unfolding count_message
count_message-Inv w n r waiting c v = ground (arith, Queues-empty)

refresh_timeout-Inv :
    (w : World) (r : ℕ) (waiting : List Bytes) (c : WsConnection)
    → Inv 0 r waiting c
    → Inv 0 r waiting (refresh_timeout w c)
unfolding refresh_timeout
refresh_timeout-Inv w r waiting c v = ground arith

take_message-Kept :
    (w : World) (got_binary : Bool) (n : ℕ) (waiting : List Bytes) (c : WsConnection)
    → Inv 0 1 waiting c
    → Kept (ok (take_message w got_binary n c))
unfolding take_message
take_message-Kept w got_binary n waiting c v = (
  take_message w got_binary n c,
  left (take_message w got_binary n c) waiting,
  refl,
  ground (arith, Queues-empty),
)

-- `on_read` without an error, with its first half shut.
pub on_read-eq :
    (w : World) (got_binary : Bool) (bytes : Bytes) (c : WsConnection)
    → let counted =
        count_message w (length bytes) (record c { read_buffer = c.read_buffer ++ bytes }) in
      on_read w none got_binary bytes c
      ≡ (if counted.1 then counted.0 else take_message w got_binary (length bytes) counted.0)
unfolding on_read
on_read-eq w got_binary bytes c = refl

pub on_read-Kept :
    (w : World) (status : Status) (got_binary : Bool) (bytes : Bytes) (waiting : List Bytes)
    (c : WsConnection)
    → Inv 0 1 waiting c
    → Kept (ok (on_read w status got_binary bytes c))
on_read-Kept w (some e) got_binary bytes waiting c v =
    unfold on_read in handle_read_error-Kept e 0 1 waiting c v
on_read-Kept w none got_binary bytes waiting c v =
    let committed = record c { read_buffer = c.read_buffer ++ bytes } in
    let counted = count_message w (length bytes) committed in
    let inv = count_message-Inv w (length bytes) 1 waiting committed (ground arith) in
    rw (on_read-eq w got_binary bytes c) (elim (Bool-cases counted.1) [
      | inl killed ↦ rw killed (
        counted.0,
        left counted.0 waiting,
        refl,
        weaken 0 1 0 0 _ counted.0 (omega arith) (omega arith) inv,
      )
      | inr kept ↦
          rw kept
            (take_message-Kept w got_binary (length bytes) (left counted.0 waiting) counted.0 inv)
    ])
