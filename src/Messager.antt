-- ===== src/Messager.antt =====
-- messager-cpp/: a chat server that sends each line of a client to all others, and its client.
pub mod Lines
pub mod Server
pub mod Client
pub mod Main
