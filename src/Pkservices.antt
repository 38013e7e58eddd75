-- ===== src/Pkservices.antt =====
-- pkservices: running services, and the options, errors and stages of their manager.
pub mod Options
pub mod Report
pub mod Manager
pub mod Shutdown
pub mod Log
pub mod Services
pub mod Tester
pub mod Tests
