-- ===== src/Pktesting.antt =====
-- pktesting: assertions on errors.
pub mod AssertErr
pub mod Suite
mod Tests
