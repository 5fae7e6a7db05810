-- ===== src/Server.antt =====
-- cmd/server/main.go: the program around the handler.
pub mod Env
pub mod Kept
pub mod Serve
pub mod Total
pub mod Shutdown
pub mod Startup
