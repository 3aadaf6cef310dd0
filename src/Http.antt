-- ===== src/Http.antt =====
-- The HTTP fetcher, internal/protocol/http: one module for each part of it.
pub mod Chunk
pub mod Steal
pub mod Retry
pub mod SlowStart
pub mod Expand
pub mod Transfer
pub mod Finish
pub mod Resume
pub mod Restart
pub mod Lifecycle
pub mod Single
pub mod Fallback
pub mod Request
pub mod Disposition
pub mod Prefetch
mod Tests
