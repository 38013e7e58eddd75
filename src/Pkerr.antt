-- ===== src/Pkerr.antt =====
-- pkerr: sentinels, API errors, panics, and the gRPC error middleware.
pub mod Panic
pub mod Sentinel
pub mod Go
pub mod ApiError
pub mod Generator
pub mod Status
pub mod Server
pub mod Rpc
pub mod Client
pub mod Tests
