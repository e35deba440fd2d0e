-- ===== src/Probe/Restored.antt =====
-- What the probe's commands open, and the calls that close it again.
pub mod Things
pub mod Survey
pub mod Children
pub mod Sockets
pub mod Commands
