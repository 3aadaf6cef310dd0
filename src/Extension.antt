-- ===== src/Extension.antt =====
-- Extensions, pkg/download/extension.go: one module for each part of the code.
pub mod Manifest
pub mod Settings
pub mod Registry
pub mod Source
pub mod Trigger
pub mod Upgrade
pub mod Context
mod Tests
