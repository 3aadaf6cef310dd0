-- ===== src/Torrent.antt =====
-- The BitTorrent fetcher, internal/protocol/bt/fetcher.go.
pub mod Add
pub mod Client
pub mod Fetcher
pub mod Manager
pub mod Seed
mod Tests
