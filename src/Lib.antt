-- ===== src/Lib.antt =====
-- win_perf_counters collects Windows performance counters through the performance data helper
-- (pdh.dll). `WinPerfCounters` (win_perf_counters.go) is configured with objects, their instances and
-- counters. `Init` checks the configuration. `Gather` refreshes the counters when that is due: it
-- closes the queries of all hosts, parses the configuration again, which opens a query for each host
-- and adds its counters, and lets each query collect once. Then it collects the data of every host and
-- calls a function for each group of fields. The queries are `performanceQueryImpl`
-- (performance_query.go), a wrapper of the calls in pdh.go; utils.go takes counter paths apart, puts
-- them together and says which errors are ignored.
--
-- Files and code:
-- - Path: `formatPath`, `extractCounterInfoFromCounterPath` (utils.go). A text is the list of its
--   bytes (Text); an index that is -1 in the source is `none`. Path/Safety has the invariant of the
--   scan, Path/Brackets the texts that a path is made of, Path/Scanning and Path/Borders what the
--   scan does with them.
-- - Names: the replacer `sanitizedChars` (win_perf_counters.go) and `newCounter` (utils.go).
-- - Pdh/Codes, Pdh/Table: the status codes and `pdhErrors` (pdh.go). Pdh/Api: the calls that
--   performance_query.go makes, a record that its definitions take as a parameter, over a type of
--   system states. Pdh/Calls fills that record with the functions of pdh.go, over a record of the
--   procedures that the libraries have (Pdh/Dll); Pdh/Paths follows the strings through them, which
--   Query/Strings/Encode writes as `syscall.UTF16PtrFromString` does. Pdh/FileTime: the conversion
--   of a file time (pdh.go, kernel32.go).
-- - Pdh/Layout: how Go lays out a struct, and the structs of pdh_386.go, pdh_amd64.go and
--   pdh_arm64.go, one child for each file. Pdh/Memory, Pdh/Reading: what is read through them from
--   the memory that PDH writes; Reading/Documented has the memory as PDH documents it, with the
--   alignment of the C compiler.
-- - Result, Errors: errors as values; `checkError` and `isKnownCounterDataError` (utils.go).
-- - Query: `performanceQueryImpl` (performance_query.go); a method takes and returns the query and
--   the state of the system. Query/Values has the getters, Query/Strings `utf16PtrToString` and
--   `utf16ToStringArray`, Query/Buffer the loop that six methods share, Query/Lifecycle the
--   handles, Query/Documented a method over the memory that PDH documents.
-- - WinPerfCounters/Model: the structs of win_perf_counters.go, the interface `PerformanceQuery` as
--   a record, and actions on the state, which keep their changes after an error as the source does.
--   Init: `Init`. Items: `hostname`, `addItem`. Hosts: `parseConfig`, `cleanQueries`. Fields and
--   Gathering: `shouldIncludeMetric`, `addCounterMeasurement`, `gatherComputerCounters`, `Gather`.
--   Implementation: the interface filled by Query, and the laws that the collector relies on.
--   Constructor: `NewWinPerfCounters`. Ensures: actions that keep an invariant, whatever they
--   return; Items/Invariants and Hosts/Invariants say which ones `addItem` and `parseConfig` keep,
--   and Gathering/Invariant has the one of the collector. Items/Changes lists what `addItem`
--   changes; Items/Grown, Items/Single and Hosts/Configured follow the counters of each computer
--   through `addItem` and `parseConfig`, Gathering/Counters and Gathering/Configured through
--   `Gather`. Working has a system on which the calls for open queries succeed, and Items/Working,
--   Hosts/Working, Gathering/Reads and Gathering/Working the actions that succeed then;
--   Working/Implementation is about performance_query.go, Gathering/Total about any number of
--   `Gather` calls. Hosts/First and Gathering/First follow a first host that cannot be opened,
--   Gathering/Repeated the loop over `Gather`.
-- - WinPerfCounters/Fields/Assignments, Fields/Unique, Gathering/Collected: the collected fields as
--   what a list of assignments leaves, which is the account of `gatherComputerCounters` where no
--   call fails. Gathering/FromMemory begins at the memory that PDH writes.
-- - WinPerfCounters/Handles: what each method of the interface does to the queries that are open in
--   the system. Handles/Lifecycle and Handles/Implementation are about performance_query.go,
--   Handles/Hosts, Items, Reading and Gathering about the collector, Command/Handles about a whole
--   run.
-- - WinPerfCounters/Schedules: the goroutines of `Gather` with their steps in any order, and the
--   groups of each in any order. Schedules/Safety is about every prefix of such a run,
--   Schedules/Agreement relates a whole run to one goroutine after the other, Schedules/Budget and
--   Schedules/Liveness say when it is over; Schedules/Quiet has the condition on pdh.dll for that.
-- - Command: `main` (cmd/main.go) for any number of ticks; a panic ends the process.
-- - Logger: the calls of Go's package `log` that the logger makes (log.go).
-- - NotWindows: the stub for other platforms (win_perf_counters_notwindows.go).
-- - Int, Text, Dict, Prelude: numbers, bytes, maps, and shared names. Tests: runs on examples.
--
-- Numbers are natural numbers; `uint32` sizes wrap at 2 ^ 32 where the source multiplies them. The
-- buffer loop has fuel for 22 rounds, which is enough for limits and sizes below 2 ^ 31, since the size
-- at least doubles from 1024 in each round. The loop over a list of UTF-16 strings has fuel for the
-- length of the buffer. The other loops are recursions on lists.
--
-- A map is a list of entries in the order of insertion, and a range over it visits them in that
-- order, where the source may take any. In `gather` the goroutines run one after another; if one
-- panics, the process ends when the others have run, and what they have passed on stays passed on.
-- Schedules has the other orders, in steps of one round of a loop. Reading behind the end of a
-- buffer for a missing terminator is a fault. The bits of a `float64`, the clock, the address of a
-- local variable that is passed on and the decoding of the TOML file are functions that the
-- definitions take. Not modelled: what the collector logs, and a pdh.dll that has
-- PdhAddEnglishCounterW without PdhCollectQueryDataWithTime.
pub mod Prelude
pub mod Int
pub mod Text
pub mod Result
pub mod Pdh
pub mod Errors
pub mod Query
pub mod Path
pub mod Dict
pub mod WinPerfCounters
pub mod Command
pub mod Logger
pub mod NotWindows
pub mod Names
mod Tests
