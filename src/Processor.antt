-- ===== src/Processor.antt =====
-- The processor of processor.go: which queues it reads, and what it does with a task.
pub mod Priority
pub mod Strict
pub mod Deadline
pub mod Worker
pub mod Decisions
mod Tests
