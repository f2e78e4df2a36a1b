-- ===== src/Lib.antt =====
-- MrEnderson, an assistant that plans actions and carries them out behind deterministic gates: a
-- model of the gates, that is of the code that decides what an action may do and when.
--
-- The parts and the files
--
-- - Schemas: the enums and records of app/decision_intelligence/schemas.py, and the enums that it
--   takes from app/database/models.py.
-- - StateMachines: the transition tables of app/decision_intelligence/action_state_machine.py,
--   action_plan_state_machine.py and app/orchestration/state_machine.py. `follow` runs a list of
--   targets through `assert_transition`; ActionPaths, PlanPaths and TaskPaths say what such a
--   list can reach.
-- - Authority: app/authority_contracts. Tiers has the P-tiers and the pinned vocabulary,
--   Identifiers and Contracts the checks of the constructors, Algebra `leq` and `meet`.
--   Validity, Semilattice, Order, Meet and Patterns hold the proofs.
-- - ToolRegistry: app/decision_intelligence/tool_registry.py. Names has the two patterns as
--   automata, Operations the registry as a dict passed from call to call, Defaults the catalog.
-- - PermissionEngine: app/decision_intelligence/permission_engine.py. Levels has the tables,
--   Decisions `evaluate_permission` and `apply_permission_decision`; it asks ToolRegistry for
--   the tool and StateMachines.Action for the transition.
-- - ApprovalEngine: app/decision_intelligence/approval_engine.py and action_hash.py. Requests has
--   creation, decision and expiry, Validity the gate and the calls behind it.
-- - DecisionRules: app/decision_intelligence/decision_rules.py. Rules has the table and the
--   functions, Readiness the proofs.
-- - Recovery: recovery_policy.py and retry_policy.py (Policy), and retry_controller.py with the
--   versioned update of app/database/repositories.py (Retry), over a dict of rows that stands
--   for the table; Once has the proofs.
-- - Budget: app/decision_intelligence/budget.py and its two repositories. Ledger has the tables,
--   Consume `reserve_and_consume`, with what other callers do between its awaits as a parameter;
--   Limits, Overspend and Replay hold the proofs.
-- - Eligibility: app/decision_intelligence/action_eligibility.py. Evaluate has the verdict on an
--   action, Ready the proof.
-- - MissionBudget: app/orchestration/budget.py; Retries has the check before each retry in the
--   loop of app/orchestration/evaluator.py.
-- - PlanValidation: app/decision_intelligence/plan_validation.py. Cycles has the search for a
--   cycle with the three collections that its nested function shares, Checks the other checks and
--   the readiness report; Walks, Search, Acyclic, Clean and Runnable hold the proofs.
-- - Executor: app/decision_intelligence/action_executor.py. Adapters has the registry of
--   tool_adapters.py, Approvals the rows of app/database/repositories.py, Outcomes the results and
--   refusals, Gate the two gates, Execute the run; it asks ApprovalEngine for validity,
--   ToolRegistry for the tool and StateMachines.Action for each status change. An adapter acts on
--   a world, whose type is a parameter, and each of its calls returns or raises. Moves,
--   Runs, Dispatches, Traces and Cleared hold what an execution is made of, Completed, Raises and
--   Durable what it shows.
-- - Providers: app/providers. Catalogue has the registry and its queries, Routing the contracts of
--   the router with their consistency checks, Route `route_providers`; Registered, Constraints,
--   Winner, Origins and Selected say what is registered and selected; Distinct, Evaluated and Total
--   that a result is always returned.
-- - Failures: failure_intelligence.py. Records has the classification, the records and their table,
--   History the proofs; the results that it classifies come from Executor, the datetimes from
--   Authority/Contracts.
-- - PlanQa: plan_qa.py. Report has the classification and the report, which asks Eligibility;
--   Classified and Truthful hold the proofs.
-- - Base: lists, sorting, lists with different keys, dicts, sets, integers, Python's `==` as an
--   instance argument, and Outcome, the result of a call that returns or raises. Examples: the
--   properties at concrete values.
--
-- Conventions
--
-- A function that raises returns `raise`, with a constructor for the exception's class. A model
-- that is copied with changed fields is a record update. Where the source reads the clock the
-- time is an argument, in microseconds; a fresh identifier is an argument too. Frozensets are
-- lists of which only membership is observed. Texts for people (`explanation`, the messages of
-- exceptions) are left out. Recursion is structural; the one bound on a loop is the source's own
-- `_MAX_CAS_ATTEMPTS` in Budget/Consume. The search for a cycle recurs on fuel, one more than the
-- number of ids: each call that goes deeper marks one more id as being visited, and Search shows
-- that the fuel never runs out.
--
-- Parameters: the digest of a canonical payload (canonical JSON and SHA-256); what the database
-- driver makes of the time of a failure record, since SQLite's drops the zone; and which
-- characters Unicode counts as white space, as control characters and as line separators; for the
-- executor the adapters, the readings of the clock, the formatted texts, and what other callers do
-- to the approvals between the loading of a row and its consumption.
--
-- `sorted` is an insertion sort, which is stable like Python's. Costs are naturals.
--
-- Not modelled: language model and search providers, the HTTP interface, the
-- database but for the rows named above, audit events, the sandbox adapter, the durable executor
-- and the orchestrators (but for the check before a retry), the research heuristics, configuration and logging.
pub mod Base
pub mod Schemas
pub mod StateMachines
pub mod Authority
pub mod ToolRegistry
pub mod PermissionEngine
pub mod ApprovalEngine
pub mod DecisionRules
pub mod Budget
pub mod Eligibility
pub mod MissionBudget
pub mod Recovery
pub mod PlanValidation
pub mod Executor
pub mod Providers
pub mod Failures
pub mod PlanQa
pub mod Examples
