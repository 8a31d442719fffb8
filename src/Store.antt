-- ===== src/Store.antt =====
-- `StateStore`, ml-scientist/src/ml_episteme_mcp/state/store.py: the tables of the experiment loop
-- and the methods that read and write them. Every method holds the store's lock and commits at
-- once, so it is one step; a timestamp or a minted id is an argument.
pub mod Transitions
pub mod State
pub mod Rows
pub mod Trials
pub mod Hypotheses
pub mod Corrections
pub mod Calls
pub mod History
pub mod Changes
pub mod Lives
pub mod Labels
pub mod Frames
pub mod Final
