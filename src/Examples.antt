-- ===== src/Examples.antt =====
-- Concrete inputs for the theorems of the other files.
mod Data
mod Migrations
mod Phases
mod Pieces
mod Checks
mod Counting
mod Copying
mod Commands
