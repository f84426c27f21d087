-- ===== src/Service.antt =====
-- The parts of the folder service.
pub mod Session
pub mod Database
pub mod Handlers
pub mod Api
pub mod Device
pub mod DayHours
