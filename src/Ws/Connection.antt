-- ===== src/Ws/Connection.antt =====
-- The completion handlers of server/front/src/ws/WsConnection.cpp: the TLS, HTTP and websocket
-- handshakes, the timeouts, the reader with its rate limit, and the writer.
use ian.Prelude.{
  size_of, ℕ, ◌+◌, Bool, true, false, not, ◌||◌, Option, some, none, [], ◌∷◌, ◌++◌, Bytes, length,
  take, drop, leb, if◌then◌else◌, exceeds, Run, ok, ◌>>=◌,
}
use ian.Error.{Status, is_operation_aborted}
use ian.Front.{World, seconds}
use ian.Message
use ian.Message.{Message, empty_message, from_vector}
use ian.Ws.State.{
  Op, ssl_handshake, request_read, ws_accept, message_read, message_write, ssl_shutdown, timer_wait,
  posted, Response, service_unavailable, not_implemented, WsConnection, start, set_timeout, abort,
  shutdown, do_write_message, on_posted, count_message, handle_read_error, handle_write_error,
}

unfoldable pub on_timeout : Status → WsConnection → WsConnection
unfolding abort
on_timeout ec c = if c.dropped || is_operation_aborted ec then c else abort c

unfoldable pub on_shutdown : Status → WsConnection → WsConnection
on_shutdown ec c = if c.dropped then c else record c { socket_open = false; dropped = true }

unfoldable pub on_ssl_handshake : Status → WsConnection → WsConnection
unfolding abort
on_ssl_handshake (some e) c = abort c
on_ssl_handshake none c = start request_read c

-- `http::write` is done at once; its status is not looked at.
abbrev respond : Response → WsConnection → WsConnection
respond r c = shutdown (record c { responses = c.responses ++ r ∷ [] })

abbrev is_upgrade : Option Bool → Bool
is_upgrade (some true) = true
is_upgrade _ = false

-- `upgrade` is what the request asks for, and `left` what the read left in the buffer.
unfoldable pub on_read_request : World → Status → Bool → Bytes → WsConnection → WsConnection
unfolding shutdown handle_read_error
on_read_request w (some e) upgrade left c = handle_read_error e c
on_read_request w none upgrade left c =
    let c' = record c { request = some upgrade; read_buffer = [] } in
    if exceeds w.active_connection_count w.config.connection_limit_soft
    then respond service_unavailable c'
    else if is_upgrade c'.request
    then start ws_accept c'
    else respond not_implemented c'

unfoldable pub on_ws_handshake : World → Status → WsConnection → WsConnection
unfolding set_timeout shutdown
on_ws_handshake w ec c =
    if c.dropped
    then c
    else let c' = record c { request = none } in
      elim ec [
        | some e ↦ shutdown c'
        | none ↦ start message_read (
            set_timeout w.now (seconds (w.config.ws_timeout + 5)) (record c' {
              options = some (record {
                binary = true;
                auto_fragment = w.config.ws_message_auto_fragment;
                read_message_max = size_of w.config.message_max_size;
              });
            }))
      ]

-- The timer is set anew once no more than `ws_timeout` is left.
unfoldable pub refresh_timeout : World → WsConnection → WsConnection
unfolding set_timeout
refresh_timeout w c =
    if leb c.timer.expiry (w.now + seconds w.config.ws_timeout)
    then set_timeout w.now (seconds (w.config.ws_timeout + 5)) c
    else c

pub data FrameType : Type 0 where
  ping pong close : FrameType

-- Set as no callback: the call that would do so is commented out.
unfoldable pub on_control_frame : World → FrameType → Bytes → WsConnection → WsConnection
unfolding count_message refresh_timeout shutdown
on_control_frame w type payload c =
    let (c', killed) = count_message w (length payload) c in
    if killed
    then c'
    else let c'' = refresh_timeout w c' in elim type [ close ↦ shutdown c'' | _ ↦ c'' ]

-- `on_read` behind the rate limit.
unfoldable pub take_message : World → Bool → ℕ → WsConnection → WsConnection
unfolding refresh_timeout shutdown
take_message w got_binary readlen c =
    if not got_binary
    then shutdown c
    else let buf = take readlen c.read_buffer in
      let c' =
        refresh_timeout w
          (start message_read (record c { read_buffer = drop readlen c.read_buffer })) in
      record c' { processed = c'.processed ++ from_vector buf ∷ [] }

-- The bytes of a message are in the buffer when its read completes.
unfoldable pub on_read : World → Status → Bool → Bytes → WsConnection → WsConnection
unfolding count_message handle_read_error take_message
on_read w (some e) got_binary bytes c = handle_read_error e c
on_read w none got_binary bytes c =
    let readlen = length bytes in
    let (c', killed) =
      count_message w readlen (record c { read_buffer = c.read_buffer ++ bytes }) in
    if killed then c' else take_message w got_binary readlen c'

-- Writing goes on with the next message of the queue, or stops.
unfoldable pub write_next : WsConnection → Run WsConnection
unfolding Message.try_pop do_write_message
write_next c = Message.try_pop c.message_queue >>= elim [
  | none ↦ ok (record c { is_writing = false })
  | some (m, q) ↦ do_write_message m (record c { message_queue = q })
]

unfoldable pub on_write_message : Status → WsConnection → Run WsConnection
unfolding handle_write_error
on_write_message (some e) c =
    ok (handle_write_error e (record c { message_outbound = empty_message }))
on_write_message none c = write_next (record c { message_outbound = empty_message })

-- What an operation hands to its completion handler: a status, the bytes that were read, and what else
-- the library says of them (whether the message was binary, the request an upgrade).
pub record Completion : Type 0 where
  pub status : Status
  pub bytes : Bytes
  pub flag : Bool

unfoldable pub complete : World → Op → Completion → WsConnection → Run WsConnection
unfolding write_next
complete w ssl_handshake e c = ok (on_ssl_handshake e.status c)
complete w request_read e c = ok (on_read_request w e.status e.flag e.bytes c)
complete w ws_accept e c = ok (on_ws_handshake w e.status c)
complete w message_read e c = ok (on_read w e.status e.flag e.bytes c)
complete w (message_write bytes) e c = on_write_message e.status c
complete w ssl_shutdown e c = ok (on_shutdown e.status c)
complete w timer_wait e c = ok (on_timeout e.status c)
complete w (posted m) e c = on_posted m c
