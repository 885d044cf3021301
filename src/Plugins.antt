-- ===== src/Plugins.antt =====
-- paper_live/plugins: the plugins, from their catalogue and installation to the calls of their skills.
pub mod Lifecycle
pub mod Rollback
pub mod Skills
pub mod Manifest
pub mod Catalog
pub mod Manager
pub mod Policy
pub mod Guards
pub mod Runtime
mod Tests
