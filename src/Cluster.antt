-- ===== src/Cluster.antt =====
-- The cluster: server/common/src/cluster.
pub mod State
pub mod Connection
pub mod Chunks
pub mod Frames
pub mod Invariant
pub mod Safety
pub mod Steps
pub mod Handshake
pub mod HandshakeFrames
pub mod Order
pub mod Flow
pub mod Outbound
pub mod Executor
pub mod Channel
pub mod Delivery
pub mod Watcher
pub mod Reconnect
pub mod Outage
pub mod Acceptor
pub mod Listening
pub mod Unheard
pub mod Init
mod Tests
mod PeerTests
