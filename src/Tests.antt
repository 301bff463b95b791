-- ===== src/Tests.antt =====
-- Runs of the definitions on small inputs, and the theorems at concrete inputs.
pub mod Restarts
pub mod Sockets
pub mod Submitting
pub mod Reached
pub mod Values
pub mod Systems
pub mod Jobs
pub mod Parts
pub mod Managers
pub mod Children
pub mod Timers
pub mod Messages
pub mod Requests
pub mod Daemon
