-- ===== src/Shell.antt =====
-- What surrounds the pages: frontend/src/App.tsx and frontend/src/views/main/UpdateAlert.tsx.
pub mod Layout
pub mod Update
pub mod Header
pub mod Settled
mod Tests
