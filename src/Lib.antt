-- ===== src/Lib.antt =====
-- Lab Loop: the experiment loop of ml_episteme_mcp, the claim graph of ml_anamnesis_mcp and the
-- champion pointer of ml_arete_mcp (all under ml-scientist/src).
--
-- The first server keeps a research programme in one SQLite store. A programme has hypotheses; a trial
-- of a hypothesis is designed, gets a bundle, runs at an executor and ends; its metrics are recorded as
-- an observation, an optimizer turns them into a belief, and a conclusion gives the hypothesis a
-- verdict. Each tool handler asks the commitment checks first and then writes through the store,
-- whose methods check the transition maps and, for the label 'completed', the executor's record.
--
-- The memory server keeps claims and typed edges from a claim to what it rests on. assert_claim mints
-- a claim with its edges or attaches the edges to the claim that has the content; relate adds one edge.
--
-- The recursive loop keeps versions of an improver, one of them the champion. A proposal is admitted by
-- the components that it names; a decision cites evidence and claims a rung of the evidence ladder; a
-- promotion moves the champion pointer on a recorded decision, and a rollback moves it back. Decisions
-- mint claims on the memory server; what that answers is an argument here.
--
-- Which file models what:
--   Json, Strings      json.loads, json.dumps, splitlines and the methods of str that are used
--   Exec, Table        handlers that write and raise; a table with a primary key
--   Models             state/models.py, one record for each pydantic class
--   Record             the predicates of state/store.py on executor_output_json
--   Store              the methods of StateStore: Rows has the inserts and reads, Trials and
--                      Hypotheses the updates, Transitions the three maps, Calls all writing methods
--                      as one type; History, Changes, Lives, Labels, Frames, Final and Corrections
--                      hold the proofs
--   Commitments        enforcement/commitments.py, the checks of this loop
--   Tools              tools/hypothesis.py, observation.py and belief.py (Hypothesis, Evidence),
--                      programme.py (Programme), trial.py (Trial and Finalize), schemas.py (Schemas)
--   Candidates         register_candidate, the parent walk and the incumbent of tools/candidate.py
--                      and state/store.py
--   Rungs              the ladder of evidence rungs of _grounded_constants.py
--   Memory             ml_anamnesis_mcp: Models (state/models.py), Store and Retype (state/store.py),
--                      Checks (enforcement/checks.py), Evidence and Claims (tools/claims.py); Sound says
--                      when a graph is well formed, and the others hold the proofs
--   Arete              ml_arete_mcp: Boundary and Checks (enforcement/checks.py), Models, Store, Pointer
--                      (register_improver, promote_policy, rollback), Verdicts (record_meta_decision),
--                      Proposals (propose_meta_change) and Canaries; Champion, Moves, Back, Steps, Refine,
--                      Restored, Ladder, Governed, Ancestry and Closing hold the proofs
--   Examples           a small store, and the theorems applied to it
--
-- How the state corresponds: Store/State.antt, Memory/Store.antt and Arete/Store.antt have one list for each table, in insertion order; the
-- foreign keys of the schema are the conditions of the inserts. A handler is a
-- function from a store to a result and a store: each write of the server is committed at once, so an
-- error comes back beside the store as far as it was written. A store method holds the lock of
-- StateStore from its read to its commit, so the sequences of Calls cover every interleaving of
-- handlers.
--
-- Conventions: a minted id and the current time are arguments (id, now). A text is represented by what
-- json.loads makes of it, and a JSON number is a decimal. Durations, hours and values of
-- 2 ln BF are natural numbers of one unit each (thousandths of a second in the duration column), so
-- comparisons are exact where the server's are in floating point. The messages of the errors are left out, and the constructors of
-- Error name them. The ontological constants that verify_mece reads are fixed by the classes and left
-- out. The optimizer, the executor's replies and the blob store are arguments. A duration that is a
-- text, negative or of more than 63 bits is left out, and so is a text of one empty line, which is not
-- told apart from the empty text.
--
-- Fuel: get_candidate_lineage takes fuel for its loop. The number of candidates is enough, since each
-- step goes to a candidate that was registered before. lineage of ImproverStore takes fuel too, the number
-- of improvers, and Ancestry shows that more makes no difference. All other loops go over lists.
--
-- Not modelled: the claim that conclude_hypothesis mints on the memory server and the archiver that
-- close_programme calls, which come after the writes modelled here; capture_bundle, the execution
-- wrapper and the part of run_trial from the dispatch on; the capture of code and artifacts in
-- _finalize_trial, whose failures are swallowed; create_programme with its tests on the goal;
-- evaluation contracts, promotion decisions and the archive; the pages, prompts and resources, which
-- only read. Of the memory server, the listings, the column migrations, the recurrence analysis and the
-- statistics over floats; SHA-256, the reading of times and compute_confidence are arguments. Of the
-- recursive loop, tournaments, meta-contracts, evidence pulls and orchestration, and the
-- resolution of digests over the network; a contract and a tournament are taken by the columns that a
-- decision reads. A handler that awaits another server is modelled as if no other call came between.
-- The servers ml_zetesis_mcp and ml_agora_mcp and the deployment in ml-labloop are left out.
pub mod Prelude
pub mod Json
pub mod Record
pub mod Exec
pub mod Table
pub mod Models
pub mod Store
pub mod Strings
pub mod Commitments
pub mod Tools
pub mod Candidates
pub mod Rungs
pub mod Examples
pub mod Memory
pub mod Arete
