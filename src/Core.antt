-- ===== src/Core.antt =====
-- The shared data and logic layer (crates/core): one child for each of its modules.
pub mod Models
pub mod Errors
pub mod Failure
pub mod Config
pub mod Validate
pub mod Identity
pub mod Json
pub mod Notify
pub mod Action
pub mod Sql
pub mod Post
pub mod Rows
pub mod Store
pub mod Schema
pub mod Tables
pub mod Alloc
pub mod Reap
pub mod Kento
pub mod AuthKeys
pub mod Tests
