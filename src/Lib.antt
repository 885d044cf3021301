-- ===== src/Lib.antt =====
-- paper-live: the execution core of a trading system, src/paper_live/ of the repository.
--
-- A trading cycle moves through fixed states (state_machine.py). Orders pass the risk guardian
-- (risk.py) and the execution gateway (execution.py), which asks the environment's controller
-- (environment.py, live_approval.py) for the mode and the skill, keeps each order's lifecycle
-- (order_lifecycle.py) and calls the virtual matching engine; fills go to the ledger (pnl.py).
-- Live orders need an approval of their own (security/live_approval_gate.py) and a credential
-- that the secret broker hands out (secrets/broker.py), and go to an adapter through the router
-- (brokers/safe_router.py). The trade facade (trade_facade.py) puts these together: it assesses an
-- intent, submits it to the gateway or to the router, and tells the audit trail
-- (execution_audit.py), which binds its records to the run's manifest (run_manifest.py). The paper
-- execution of a recommended portfolio (paper_execution.py) lets the facade check every row, submits
-- the approved ones, and books each fill. Plugins (plugins/) are installed and enabled by a manager,
-- and their skills run behind a policy of modes that leaves REAL_LIVE out. The collection of data
-- keeps its failures in queues (retry_queue.py, ingestion_run.py).
--
-- Files, by the part of src/paper_live/ that they model:
--   Environment      environment.py, live_approval.py: `EnvironmentController` is the record
--                    Controller, each method a function of the same name; Environment/Events runs
--                    sequences of calls, Replay says what they do to the mode and the approval.
--   OrderLifecycle   order_lifecycle.py: `_orders` is the dictionary Orders.
--   Execution        execution.py: Types has the dataclasses, Engine `VirtualMatchingEngine`, Gateway
--                    `ExecutionGateway`. `execute` is cut where the source branches: validate,
--                    fill_quantity, charges, settle, trade; and dispatch, begin, resume, run_order,
--                    record_fill.
--   CycleState       state_machine.py.
--   Pnl              pnl.py.
--   Risk             risk.py; the guardian's controller and account are arguments of its calls.
--   Security         OrderApproval: security/live_approval_gate.py; Secrets: secrets/broker.py.
--   RunManifest      run_manifest.py: Stages has the lemmas on `with_stage`, Tracker
--                    `RunManifestTracker`, with a writer that is any action on its storage.
--   Brokers          brokers/protocol.py and brokers/safe_router.py; an adapter is any pair of actions
--                    on a world outside.
--   Audit            execution_audit.py: the record, the trail's list and `_bind`; Calls has the
--                    methods that write, Preflight `record_preflight`.
--   TradeFacade      trade_facade.py: Types and Assess have the data, the orders of an intent and its
--                    assessment, Calls the facade with `preview`, `_submit_live` and `cancel`, Submit
--                    `submit`, Rows the order that a row of a target portfolio becomes, Terms and
--                    Revalidate the calls on rows (preview, revalidation, preflight, submission).
--   PaperExecution   paper_execution.py: the orchestrator with its stages, Booking what is done with
--                    one fill, Execute the loop and `execute`.
--   PortfolioRisk    portfolio_risk.py: `build` over the account's positions.
--   Plugins          plugins/: Lifecycle, Rollback, Skills (skill_registry.py), Catalog
--                    (registry.py), Manifest (manifest.py, security.py), Manager, Policy, and Guards
--                    with Runtime (executor.py, gateway.py, integration.py).
--   Ingestion        Range has the key of a failed range and Python's order on it, Retry
--                    retry_queue.py, Failures ingestion_run.py.
--   Base             Boolean tests, integers, results with Python's kinds of exception, dictionaries,
--                    texts, and the Exec monad: a call gives a result and the state it leaves, also
--                    when it raises; Yields, Leads and Acts say what a block of calls returns, leads to,
--                    and needs.
--   Decimal          `decimal.Decimal` under Python's default context.
--
-- A function into Result raises before its first write. A method that can raise after a write is in
-- the Exec monad, so that what it wrote before stays.
--
-- Numbers. A decimal is an integer number of units of 10^-60; each operation rounds once to 28
-- significant digits, half to even. Values below 10^-32 in magnitude with a long tail, signed zeros,
-- NaN, infinities and the difference of 1.0 and 1.00 are outside the model. The count of surplus
-- digits (`Decimal.excess`) recurses on fuel; the number itself is enough, since each step divides
-- it by ten. A time is a number of microseconds.
--
-- Parameters: the HMAC digest and `datetime.fromisoformat`, with its `Z` replaced,
-- of Environment, the clock's reading, fresh
-- tokens and ids, the reading and printing of a decimal's text, digests and checksums, the secret
-- store behind the broker, the brokers' adapters with their handling of credentials, the manifest
-- writer, the storage of stages and the reflection worker, the plugin installer with the manifest it
-- loads, the test of a path, and the plugins' handlers. Texts are stripped of the white space that
-- Base/Text lists. A row of a portfolio has the text of each value, or none where the key is missing;
-- a key that is there with the value None is not modelled. The account that a caller passes beside
-- the facade is a function of the gateway, so that it may be the gateway's own or another.
--
-- Sharing. The objects that the orchestrator of PaperExecution holds are its own; where it holds the
-- facade's trail or tracker, its field is `none`, which makes it use the facade's. The plugin
-- runtime's guardian reads the controller and the account of its gateway.
--
-- Not modelled: the text form of the audit, the recommendation and its statistics on floats, the
-- ingestion jobs around the queues, reference data, locks (each call is one step), network clients,
-- storage, containers and the command lines.
pub mod Base
pub mod Decimal
pub mod Audit
pub mod Brokers
pub mod CycleState
pub mod Environment
pub mod Execution
pub mod Ingestion
pub mod OrderLifecycle
pub mod PaperExecution
pub mod Plugins
pub mod Pnl
pub mod PortfolioRisk
pub mod Risk
pub mod RunManifest
pub mod Security
pub mod TradeFacade
