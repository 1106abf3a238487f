-- ===== src/Front.antt =====
-- The globals of the front server: server/front/src/FrontGlobals.hpp and FrontGlobals.cpp.
pub mod Main
pub mod Threads
pub mod Signals
pub mod Stopping
pub mod Lost
pub mod Workers
pub mod Room
pub mod Start
pub mod Program
pub mod Returns
mod Tests
mod StartTests
use ian.Prelude.{ℕ, ◌*◌, ℤ, pos, Bool, true}

-- The configuration values that the connections read. Timeouts are in seconds, and taken not to be
-- negative.
pub record Config : Type 0 where
  pub connection_limit_soft : ℤ
  pub connection_limit_hard : ℤ
  pub message_max_size : ℤ
  pub rate_limit_messages : ℤ
  pub rate_limit_bytes : ℤ
  pub ws_message_auto_fragment : Bool
  pub ws_setup_timeout : ℕ
  pub ws_timeout : ℕ

abbrev pub default_config : Config
default_config = record {
  connection_limit_soft = pos 1000;
  connection_limit_hard = pos 1050;
  message_max_size = pos 0x4000;
  rate_limit_messages = pos 100;
  rate_limit_bytes = pos 0x8000;
  ws_message_auto_fragment = true;
  ws_setup_timeout = 3;
  ws_timeout = 30;
}

-- What a handler reads of the world when it runs: the configuration, the steady clock in
-- nanoseconds, and `active_connection_count`.
pub record World : Type 0 where
  pub config : Config
  pub now : ℕ
  pub active_connection_count : ℕ

abbrev pub seconds : ℕ → ℕ
seconds n = n * 1_000_000_000
