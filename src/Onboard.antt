-- ===== src/Onboard.antt =====
-- frontend/src/pages/Onboard/Onboard.tsx: the wizard that sets a node up, and the launch that ends it.
mod Tests
pub mod Wizard
pub mod Texts
pub mod Overlay
pub mod Labels
pub mod Steps
pub mod Awaits
pub mod Valid
pub mod Moves
pub mod Press
pub mod Reachable
pub mod Races
pub mod Poll
pub mod Launch
pub mod Settles
