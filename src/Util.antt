-- ===== src/Util.antt =====
-- pkg/util: helpers of the download core.
pub mod Filename
pub mod Files
pub mod Match
mod Tests
