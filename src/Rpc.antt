-- ===== src/Rpc.antt =====
-- The remote procedure calls of launchctl to the daemon: src/rpc_server.cc and src/rpc_client.cc.
pub mod Server
pub mod Client
pub mod Arguments
pub mod Reply
pub mod Options
pub mod Served
pub mod Overridden
pub mod Loading
pub mod Submission
pub mod Unloading
pub mod Submitted
