-- ===== src/Tools.antt =====
-- The MCP tool handlers of ml-scientist/src/ml_episteme_mcp/tools: each is an action on the store
-- that ends in its reply or in the error that it reports. A handler catches every exception, and
-- an error reply keeps what was written before it. Minted ids and the clock are arguments.
pub mod Schemas
pub mod Hypothesis
pub mod Evidence
pub mod Programme
pub mod Trial
pub mod Finalize
