-- ===== src/Orchestrator.antt =====
-- pg_dbmigrator/src/orchestrator.rs: the migration driver. `Trace` holds the outside, `Setup`,
-- `Stages` and `Run` the driver, `Legal` what it promises; `Rules`, `State` and `Moves` carry the
-- proofs of order, one file for each group of steps; `Calm`, `Untouched`, `Fits`, `Filled` and
-- `Choosing` carry those about the direct copy. The results are in `Promises`, `ReadOnly`, `Gate`
-- and `Together`.
pub mod Trace
pub mod Setup
pub mod Stages
pub mod Run
pub mod Gate
mod Calm
mod Untouched
mod Fits
mod Filled
mod Choosing
pub mod Together
pub mod Legal
mod Rules
mod State
mod Moves
mod Steps
mod Restoring
mod Applying
mod Cutting
mod Preparing
mod Legality
pub mod Ending
pub mod Promises
pub mod ReadOnly
