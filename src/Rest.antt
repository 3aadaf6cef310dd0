-- ===== src/Rest.antt =====
-- The REST server, pkg/rest.
pub mod Auth
pub mod Api
pub mod Creation
pub mod Extensions
mod Tests
