-- ===== src/Tests.antt =====
-- Runs of the definitions, and the theorems at concrete inputs.
mod Machine
mod PathTests
mod PathExamples
mod NameExamples
mod ErrorExamples
mod QueryExamples
mod CollectorExamples
mod ItemExamples
mod GatherExamples
mod PdhExamples
mod ScheduleExamples
mod LogExamples
mod HandleExamples
mod CollectedExamples
mod MemoryExamples
mod ConfiguredExamples
mod WorkingExamples
