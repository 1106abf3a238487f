-- ===== src/Error.antt =====
-- The error codes of boost that the connections tell apart (`is_connection_reset_error` and
-- `is_connection_canceled_error` of server/common/src/cluster/ClusterConnection.cpp and
-- server/front/src/ws/WsConnection.cpp, which hold the same two functions), and the statuses that the
-- acceptors get.
use ian.Prelude.{ℕ, Bool, true, false, Option, some}

-- The codes that the source names; `protocol_is_shutdown` stands for every code of the SSL category
-- with the reason SSL_R_PROTOCOL_IS_SHUTDOWN, and `other` for all the rest.
pub data ErrorCode : Type 0 where
  connection_aborted connection_reset eof stream_truncated : ErrorCode
  protocol_is_shutdown operation_aborted timed_out : ErrorCode
  other : ℕ → ErrorCode

-- `boost::system::error_code`: `none` is success.
abbrev pub Status : Type 0
Status = Option ErrorCode

abbrev pub is_connection_reset_error : ErrorCode → Bool
is_connection_reset_error connection_aborted = true
is_connection_reset_error connection_reset = true
is_connection_reset_error eof = true
is_connection_reset_error stream_truncated = true
is_connection_reset_error _ = false

abbrev pub is_connection_canceled_error : ErrorCode → Bool
is_connection_canceled_error protocol_is_shutdown = true
is_connection_canceled_error _ = false

-- `ec == boost::asio::error::operation_aborted`
abbrev pub is_operation_aborted : Status → Bool
is_operation_aborted (some operation_aborted) = true
is_operation_aborted _ = false

-- What the calls on an acceptor answer in one run of `open`: `set_option` depends on whether the
-- acceptor is open.
pub record Calls : Type 0 where
  pub set_option : Bool → Status
  pub open_ : Status
  pub bind : Status
  pub listen : Status
  pub close_ : Status
