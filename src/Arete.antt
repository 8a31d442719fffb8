-- ===== src/Arete.antt =====
-- The recursive loop, Loop 2: ml-scientist/src/ml_arete_mcp.
pub mod Boundary
pub mod Models
pub mod Store
pub mod Checks
pub mod Pointer
pub mod Verdicts
pub mod Canaries
pub mod Proposals
pub mod Governed
pub mod Champion
pub mod Moves
pub mod Back
pub mod Steps
pub mod Refine
pub mod Restored
pub mod Ladder
pub mod Ancestry
pub mod Closing
