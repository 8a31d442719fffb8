-- ===== src/Memory.antt =====
-- The memory server, ml-scientist/src/ml_anamnesis_mcp: a graph of claims and of typed edges from
-- claims to what they rest on.
pub mod Models
pub mod Store
pub mod Checks
pub mod Evidence
pub mod Claims
pub mod Sound
pub mod Steps
pub mod Loops
pub mod Keeps
pub mod Minting
pub mod Mint
pub mod Assert
pub mod Again
pub mod Relate
pub mod Retype
pub mod Content
