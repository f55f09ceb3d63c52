-- ===== src/Shell.antt =====
-- The shell of shell/src, a module for each part.
pub mod Log
pub mod Jobs
pub mod Parser
pub mod Redirection
pub mod Pipes
pub mod Loop
pub mod System
pub mod Commands
pub mod Exec
pub mod Prompt
pub mod Session
