-- ===== src/HttpServer.antt =====
-- HTTP-server-cpp/: a server that answers GET requests through a cache with expiry.
pub mod Cache
pub mod HttpParser
pub mod Server
pub mod ThreadPool
pub mod Logger
pub mod System
pub mod Main
