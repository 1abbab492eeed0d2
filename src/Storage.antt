-- ===== src/Storage.antt =====
-- internal/storage: the SQLite store. Its statements are read as functions on lists of rows; the
-- engine is a third-party package, and what is needed of its date functions is a parameter.
pub mod Stamps
pub mod Rows
pub mod Retention
pub mod Conservation
pub mod Rollups
pub mod Store
pub mod Stream
pub mod Queries
pub mod Migration
