-- ===== src/Lib.antt =====
-- The runtime of the content agency, backend/agency_runtime: the run of a campaign and the approval
-- that gates it, what keeps an external effect from happening twice, the run store, the audit
-- ledger, credentials, browser sessions and rate limits.
--
-- A run goes through seven stations, each of which leaves an artifact, and stops at a gate. A human
-- approval packages it and names the artifacts, channels and budget that an external effect may use;
-- a revocation takes that back.
--
-- A model call or a publication is an external effect. Its authority first reserves an intent in a
-- table with two UNIQUE digests per tenant, calls the provider only when the reservation is new, and
-- then settles the intent as succeeded, failed or unknown under the fence that the reservation
-- carries; an operator reconciles an unknown one, and a revocation withdraws a pending one. Every
-- command leaves an event in its tenant's hash chain, in the transaction of the command.
--
-- Files and code:
--   Prelude         numbers, texts, tables as lists of rows, results with an exception.
--   Json            backend/agency_runtime/utils.py: `to_primitive`, `canonical_json`, `stable_id`.
--   ModelEffect     model_effect_store.py: Intent has the record, the row and the validation, Store
--                   `reserve`, `get`, `_transition` and its callers, Store.Recovery the other methods
--                   and the type of operations; model_effect.py: Authority, `execute`,
--                   with its command and intent in Authority.Requests.
--   Publication     social_publication_store.py, laid out the same way.
--   Audit           audit_integrity.py and persistence.py: `_append_audit_locked`, `append_audit`
--                   in Append, `verify_audit_chain` in Audit; Soundness has the chain that it
--                   looks for, written out.
--   Sessions        persistence.py: `create_session` in Creation, and the others up to
--                   `revoke_session`.
--   Runs            persistence.py: `create`, `save` and `get` of a run, with its command receipt.
--   Limits          persistence.py: the failure limit and the request quota.
--   Agency          models.py in Model, its Enum values in Values; orchestrator.py: Stations has what
--                   each station does to a run, Services what it calls, Handlers the `_run_*`
--                   methods, Orchestrator `create`, `advance` and `start`, Greenlights and Decisions
--                   `_decide` and `revoke`; api.py: Effects has the guard of an effect, Worker
--                   `execute_one_queued_run`; serialization.py: Writing, Reading and Document. Phases
--                   has the graph of the statuses; Work, Steps, Choices, Packaging, Sealing,
--                   Weights, Progress and Roundtrip carry the proofs.
--   Auth            auth.py: roles and normalizations in Auth, the constructor in Configuration and
--                   Environment, `authenticate` and `resolve_active_session` in Access.
--
-- How the code is read:
--   A table is the list of its rows in the order of insertion. A method runs under the store's lock
--   and in one transaction, so it is a function from a table to its result and the table it leaves;
--   an exception is a value, and rolls its transaction back. A history is a list of method calls, the
--   interleaving of all threads. A status is a member of its enumeration, as the validation demands,
--   and a frozen record is a record; identifiers, digests and reasons are checked by the source's
--   patterns, on code points. `len(s.encode())` is the length in bytes.
--   Integers that the source tests for their sign are ℤ; counts, times and limits are ℕ. A time of a
--   session or of a limit is a whole number of seconds, as `utc_now` reads it; other times are texts.
--   `now` is a reading of the clock, and random identifiers and tokens are arguments.
--   json.dumps, json.loads and SHA-256 are the parameters of a Platform. The two methods of
--   model_gateway.py that `execute` calls are the parameters of a Gateway: each returns, raises an
--   exception that `execute` catches, or raises another one. Where a theorem needs that a written
--   JSON text is read back, it says so.
--   A run is mutated in place, so an action of the orchestrator returns the run beside its result,
--   changed as far as the code came before a raise. A dict from roles is the list of its values.
--   The loop of `start` runs on fuel: sixteen rounds, two for each of the seven stations, one for
--   the gate and one for the last test of the loop. Every other loop is one over a list.
--
-- Not modelled: HTTP routing, PostgreSQL stores, OAuth, publication media, the content that the
-- stations' tools make, memory, signing of checkpoints, migrations of old tables, command line and
-- scripts.
pub mod Prelude
pub mod Json
pub mod ModelEffect
pub mod Audit
pub mod Publication
pub mod Sessions
pub mod Limits
pub mod Runs
pub mod Agency
pub mod Auth
