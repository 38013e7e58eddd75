-- ===== src/Pkmiddleware.antt =====
-- pkmiddleware: chains of middleware for clients and servers, and the logging middleware.
pub mod Chain
pub mod Logging
pub mod Tests
