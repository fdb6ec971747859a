-- ===== src/App.antt =====
-- internal/app/app.go: the commands of the program.
pub mod Candidates
pub mod Locals
pub mod World
pub mod Plan
pub mod Run
pub mod Flags
pub mod Main
pub mod Stays
pub mod Tables
pub mod Succeeds
