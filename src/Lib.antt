-- ===== src/Lib.antt =====
-- A verification library for three programs of the repository: the durable mission kernel
-- (tools/durable_mission_kernel), the host execution broker (tools/host_execution_broker) with the
-- grammar of write surfaces (coordination/EXECUTION/canonical_write_paths.py), and two parts of the
-- control tower (coordination/CONTROL-TOWER): the lifecycle of worker slots, and the actions that a
-- worker may take on paths.
--
-- The kernel keeps missions. `MissionLedger` (ledger.py) stores their events in SQLite tables; an
-- event is accepted by `reduce_state` (reducers.py), linked to the one before by a hash over
-- canonical JSON (canonical.py), and the chain is checked again by `verify_event_chain`
-- (verifier.py) when a mission is replayed. `LeaseManager` (lease.py) fences a collision domain to
-- one executor, `EffectLedger` (effects.py) records side effects under idempotency keys, and
-- protocols.py keeps the roles apart; the canary (endurance.py) runs ledger, leases and effects
-- together over many episodes. The broker admits executions: a request (models.py) turns
-- into claims, claims are compared with the active leases of a database (broker.py), and what is
-- admitted gets leases with generations that fence what came before. The control tower reads YAML
-- registries: worker_lifecycle.py derives the state of each worker slot from its projection and from
-- evidence, and audits the capacity; path_action_constraints.py compares what registry, work claim
-- and route say of constrained paths and checks Git diffs against it, and path_action_policy.py pins
-- the result to an anchor outside the worker's reach.
--
-- Files and code:
--   Kernel/Schemas      tools/durable_mission_kernel/schemas.py
--   Kernel/Reducers     tools/durable_mission_kernel/reducers.py
--   Kernel/Canonical    tools/durable_mission_kernel/canonical.py; Canonical/Json is `jcs_dumps`,
--                       Canonical/Loads the `json.loads` with which the ledger reads events back
--   Kernel/Verifier     tools/durable_mission_kernel/verifier.py
--   Kernel/Tables, Kernel/Ledger
--                       tools/durable_mission_kernel/ledger.py, on a record of three tables
--   Kernel/Lease        tools/durable_mission_kernel/lease.py, on a store of lease objects
--   Kernel/Effects      tools/durable_mission_kernel/effects.py, on a store of effect records
--   Kernel/Protocols    tools/durable_mission_kernel/protocols.py
--   Kernel/Endurance    tools/durable_mission_kernel/endurance.py
--   Broker/WritePaths   coordination/EXECUTION/canonical_write_paths.py, and the overlap test of
--                       broker.py
--   Broker/Models, Broker/Request, Broker/Process
--                       tools/host_execution_broker/models.py
--   Broker/Store, Broker/Rules, Broker/Admission, Broker/Lifecycle
--                       tools/host_execution_broker/broker.py; Broker/Dumps is its `json.dumps`
--   Broker/Exclusion    what the calls of the broker keep of the leases together
--   ControlTower/Values the values that yaml.safe_load returns, and what Python does with them
--   ControlTower/Lifecycle (States, Projection, Evidence, Resolution, Schema, Registry)
--                       coordination/CONTROL-TOWER/worker_lifecycle.py
--   ControlTower/PathActions (Findings, Patterns, Constraints, Diff, Contract)
--                       coordination/CONTROL-TOWER/path_action_constraints.py
--   ControlTower/PathActions/Policy
--                       coordination/CONTROL-TOWER/path_action_policy.py
--   ControlTower/PathActions/Main
--                       the main functions of the two, up to the exit code
--   Prelude             texts as lists of code points, dicts as association lists, results, tests
--
-- Conventions. A method that raises is a `Result` whose error leaves the state as it was, which
-- is what a transaction that is rolled back does. Objects that two dicts share live in a store
-- under numbers. Clock readings, random tokens, the hash, and the Unicode tables behind NFC,
-- `casefold` and `upper` are parameters, and so are `repr` of lists and dicts, `fnmatchcase` and what
-- Git answers; the documents that a YAML file holds are arguments. A check that collects findings
-- returns the list of them, without their messages. Where a hash must not collide, the theorem gives
-- a collision as the other case of its result, so it has no hypothesis on the hash. Loops are
-- recursion on the list that they go over; `str(n)` is recursion on fuel, of which n + 1 is enough, and `json.loads` takes
-- the length of the text as its fuel, and every step of the parser takes a character.
--
-- Not modelled: floats in canonical JSON, texts with lone surrogates, on which the encoding for the
-- hash raises, floats and dates of YAML, the backup calls of SQLite, process containment by the
-- Windows kernel, the headless adapter, the query `history`, the parsing of command lines, and the
-- rest of the repository (creative runtime, the other modules of the control tower, governance
-- documents).
pub mod Prelude
pub mod Kernel
pub mod Broker
pub mod ControlTower
