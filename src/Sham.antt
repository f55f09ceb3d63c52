-- ===== src/Sham.antt =====
-- The reliable transport over UDP of networking/, a module for each part.
pub mod Wire
pub mod Client
pub mod Server
pub mod Transfer
pub mod Handshake
pub mod Chat
pub mod Checksum
pub mod EventLog
pub mod Arguments
