-- ===== src/Config.antt =====
-- The configuration: server/common/src/config and server/common/include/common/config.
pub mod Value
pub mod Group
pub mod Sync
mod Tests
