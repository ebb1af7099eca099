-- ===== src/WinPerfCounters.antt =====
-- `WinPerfCounters` (win_perf_counters.go).
pub mod Model
pub mod Ensures
pub mod Constructor
pub mod Init
pub mod Items
pub mod Hosts
pub mod Fields
pub mod Gathering
pub mod Schedules
pub mod Handles
pub mod Working
pub mod Implementation
