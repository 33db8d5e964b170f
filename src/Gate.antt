-- ===== src/Gate.antt =====
-- GateServer: the HTTP front of the system.
mod Tests
pub mod Url
pub mod Logic
