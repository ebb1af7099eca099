-- ===== src/Pdh.antt =====
-- The performance data helper (pdh.go): its status codes and their names.
pub mod Codes
pub mod Table
pub mod Api
pub mod Layout
pub mod Memory
pub mod FileTime
pub mod Reading
pub mod Dll
pub mod Calls
pub mod Paths
