-- ===== src/Ws/State.antt =====
-- The state of a WsConnection and the operations that its handlers share:
-- server/front/src/ws/WsConnection.hpp and WsConnection.cpp. The handlers are in Ws/Connection.
-- As for the cluster, `pending` holds the asynchronous operations under way, and `processed` and
-- `sent` record the calls of `process_message`, whose body is empty, and of `do_write_message`.
use ian.Prelude.{
  ℕ, ◌+◌, ◌%◌, Bool, true, false, not, ◌||◌, Option, none, List, [], ◌∷◌, ◌++◌, Bytes, ltb,
  if◌then◌else◌, exceeds, to_size, size_mod, Run, ok, ◌>>=◌,
}
use ian.Error.{ErrorCode, is_connection_reset_error, is_connection_canceled_error}
use ian.Front.{World, seconds}
use ian.Message
use ian.Message.{Message, MessageQueue, empty_message, empty_queue, is_empty}

pub data Op : Type 0 where
  ssl_handshake request_read ws_accept message_read : Op
  message_write : Bytes → Op
  ssl_shutdown timer_wait : Op
  posted : Message → Op

-- A steady timer: whether a wait is to fire, and when.
pub record Timer : Type 0 where
  pub armed : Bool
  pub expiry : ℕ

-- What `on_ws_handshake` sets on the stream.
pub record StreamOptions : Type 0 where
  pub binary : Bool
  pub auto_fragment : Bool
  pub read_message_max : ℕ

-- The answer to a request that is not upgraded.
pub data Response : Type 0 where
  service_unavailable not_implemented : Response

-- The counter of messages, an int in the code, does not overflow here.
-- `request` is the request that was read, as far as the code looks at it: whether it asks for an
-- upgrade.
pub record WsConnection : Type 0 where
  pub dropped : Bool
  pub shutting_down : Bool
  pub is_writing : Bool
  pub socket_open : Bool
  pub timer : Timer
  pub state_timer : Timer
  pub message_queue : MessageQueue
  pub message_outbound : Message
  pub request : Option Bool
  pub read_buffer : Bytes
  pub options : Option StreamOptions
  pub rate_limit_start : ℕ
  pub rate_limit_messages : ℕ
  pub rate_limit_bytes : ℕ
  pub pending : List Op
  pub responses : List Response
  pub processed : List Message
  pub sent : List Message

abbrev pub start : Op → WsConnection → WsConnection
start op c = record c { pending = op ∷ c.pending }

abbrev idle_timer : Timer
idle_timer = record { armed = false; expiry = 0 }

abbrev pub cancel : Timer → Timer
cancel t = record t { armed = false }

-- The constructor, on an open socket; it also adds one to `active_connection_count`.
abbrev pub new_connection : ℕ → WsConnection
new_connection now = record {
  dropped = false;
  shutting_down = false;
  is_writing = false;
  socket_open = true;
  timer = idle_timer;
  state_timer = idle_timer;
  message_queue = empty_queue;
  message_outbound = empty_message;
  request = none;
  read_buffer = [];
  options = none;
  rate_limit_start = now;
  rate_limit_messages = 0;
  rate_limit_bytes = 0;
  pending = [];
  responses = [];
  processed = [];
  sent = [];
}

unfoldable pub set_timeout : ℕ → ℕ → WsConnection → WsConnection
set_timeout now delay c =
    start timer_wait (record c { timer = record { armed = true; expiry = now + delay } })

unfoldable pub set_state_timeout : ℕ → ℕ → WsConnection → WsConnection
set_state_timeout now delay c =
    start timer_wait (record c { state_timer = record { armed = true; expiry = now + delay } })

unfoldable pub cancel_state_timeout : WsConnection → WsConnection
cancel_state_timeout c = record c { state_timer = cancel c.state_timer }

unfoldable pub run : World → WsConnection → WsConnection
unfolding set_timeout
run w c =
    if not c.socket_open
    then c
    else start ssl_handshake (set_timeout w.now (seconds w.config.ws_setup_timeout) c)

unfoldable pub send_message : Message → WsConnection → WsConnection
unfolding is_empty
send_message m c = if is_empty m then c else start (posted m) c

unfoldable pub abort : WsConnection → WsConnection
abort c = if c.dropped then c else record c {
  timer = cancel c.timer;
  state_timer = cancel c.state_timer;
  message_queue = empty_queue;
  socket_open = false;
  dropped = true;
}

unfoldable pub shutdown : WsConnection → WsConnection
shutdown c =
    if c.dropped || c.shutting_down
    then c
    else let c' = record c {
      timer = cancel c.timer;
      state_timer = cancel c.state_timer;
      message_queue = empty_queue;
    } in
      if not c'.socket_open then c' else record (start ssl_shutdown c') { shutting_down = true }

unfoldable pub do_write_message : Message → WsConnection → Run WsConnection
unfolding Message.payload
do_write_message m c = do
  bytes ← Message.payload m
  ok (start (message_write bytes) (record c { message_outbound = m; sent = c.sent ++ m ∷ [] }))

-- The task that `send_message` posts.
unfoldable pub on_posted : Message → WsConnection → Run WsConnection
unfolding do_write_message Message.push
on_posted m c =
    if c.dropped || c.shutting_down
    then ok c
    else if not c.is_writing
    then do_write_message m (record c { is_writing = true })
    else Message.push m c.message_queue >>= λ q. ok (record c { message_queue = q })

-- The flag is true on abort.
unfoldable pub check_rate_limit : World → WsConnection → WsConnection × Bool
unfolding abort
check_rate_limit w c =
    if exceeds c.rate_limit_messages w.config.rate_limit_messages
      || exceeds c.rate_limit_bytes (to_size w.config.rate_limit_bytes)
    then (if ltb (c.rate_limit_start + seconds 1) w.now
        then (
          record c { rate_limit_start = w.now; rate_limit_messages = 0; rate_limit_bytes = 0 },
          false,
        )
        else (abort c, true))
    else (c, false)

-- What `on_read` and `on_control_frame` begin with, for `n` bytes of data.
unfoldable pub count_message : World → ℕ → WsConnection → WsConnection × Bool
unfolding check_rate_limit
count_message w n c = check_rate_limit w (record c {
  rate_limit_messages = c.rate_limit_messages + 1;
  rate_limit_bytes = (c.rate_limit_bytes + n) % size_mod;
})

-- `handle_read_error` and `handle_write_error` differ in what they log.
abbrev handle_error : ErrorCode → WsConnection → WsConnection
handle_error e c =
    if c.dropped
    then c
    else if is_connection_reset_error e
    then abort c
    else if is_connection_canceled_error e
    then c
    else shutdown c

unfoldable pub handle_read_error : ErrorCode → WsConnection → WsConnection
unfolding abort shutdown
handle_read_error e c = handle_error e c

unfoldable pub handle_write_error : ErrorCode → WsConnection → WsConnection
unfolding abort shutdown
handle_write_error e c = handle_error e c
