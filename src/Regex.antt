-- ===== src/Regex.antt =====
-- The regular expressions that the forms test texts with, as JavaScript matches them between `^` and
-- `$`: by derivatives, and what a match is. The forms are those of
-- frontend/src/pages/Onboard/Onboard.tsx.
pub mod Expr
pub mod Laws
mod Tests
