-- ===== src/Tests.antt =====
-- Runs of the code on concrete inputs.
pub mod Streams
pub mod Retrying
pub mod Serving
pub mod Secure
pub mod Peers
pub mod Showing
pub mod Delivering
pub mod Living
pub mod Building
