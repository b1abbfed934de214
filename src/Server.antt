-- ===== src/Server.antt =====
-- internal/server and internal/protocol: secrets for the shim over a unix socket.
pub mod Peer
pub mod Handle
pub mod Connection
pub mod Cases
pub mod Delivery
pub mod Release
pub mod Kernel
pub mod Refused
pub mod Closed
pub mod Socket
pub mod Machine
pub mod Alone
pub mod Interleaving
