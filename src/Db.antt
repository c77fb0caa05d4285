-- ===== src/Db.antt =====
-- The database (app/models) and the session through which the services read and write it.
pub mod Schema
pub mod Tables
pub mod Session
pub mod Ensures
pub mod Keeps
pub mod OnlyHttp
pub mod Retry
pub mod Degradation
