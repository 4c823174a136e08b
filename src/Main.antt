-- ===== src/Main.antt =====
-- The page from which a node is started, frontend/src/pages/Main/Main.tsx.
pub mod Page
pub mod Start
pub mod Alias
pub mod Nodes
pub mod Effects
pub mod Steps
pub mod Overlay
pub mod Stopped
pub mod Covered
pub mod Unlocks
pub mod Sheet
pub mod Removal
pub mod Renaming
mod Tests
