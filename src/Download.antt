-- ===== src/Download.antt =====
-- The downloader, pkg/download: its tasks and its scheduler, and the extraction queue.
pub mod Task
pub mod Config
pub mod Create
pub mod Parts
pub mod Progress
pub mod Resource
pub mod Setup
pub mod Storage
pub mod Persist
pub mod Scheduler
pub mod Operations
pub mod ExtractQueue
pub mod MultiPart
pub mod Extraction
pub mod Hooks
pub mod Removal
mod Tests
