-- ===== src/Ws.antt =====
-- The websocket side of the front server: server/front/src/ws.
pub mod State
pub mod Connection
pub mod RateLimit
pub mod Invariant
pub mod Safety
pub mod Steps
pub mod Flow
pub mod Order
pub mod Acceptor
pub mod Limit
pub mod Deaf
mod Tests
