-- ===== src/Node.antt =====
-- The page of a running node, frontend/src/pages/Node/Node.tsx: the state of the component, what a
-- render derives from it, its handlers, its effects, and the steps that they make up.
pub mod Labels
pub mod Page
pub mod Derived
pub mod Texts
pub mod Handlers
pub mod Effects
pub mod Commit
pub mod Steps
pub mod Escape
pub mod Frames
pub mod Sheet
pub mod Watch
pub mod Limbo
pub mod Watchdog
pub mod Flight
pub mod Retry
mod Tests
