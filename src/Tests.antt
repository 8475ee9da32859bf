-- ===== src/Tests.antt =====
-- Runs of the models on concrete inputs, and each theorem at an input that exercises the code.
pub mod Fixed
pub mod Pictures
pub mod Programs
pub mod Shards
pub mod Responses
pub mod Messages
pub mod Sockets
pub mod Select
pub mod Metro
pub mod Served
pub mod Drained
