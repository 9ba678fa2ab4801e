-- ===== src/Lib.antt =====
-- caqrs: a verification library for the orchestration of research cycles.
--
-- A cycle goes through the phases of a state machine, writes what happens to an event log, is guarded
-- by a budget of tokens and time and by a detector of loops in tool calls, and ends in a decision. The
-- policy gateway projects the decision onto what the account allows, with the loss that the tracker
-- makes of the broker's profit and loss; the broker carries the projected action out and reports.
--
-- Which file models which part (paths from the repository's root):
--   Orchestrator/StateMachine  src/caqrs/orchestrator/state.py, state_machine.py: the whitelist and
--     `transition`; a listener is a function of the caller's on a world of the caller's, and may raise
--     (Orchestrator/Listeners).
--   Orchestrator/Events        src/caqrs/orchestrator/events.py: kinds, record and builders.
--   Orchestrator/EventLog      src/caqrs/orchestrator/event_log.py: `append`, `extend`, `on_event`, the
--     filters and `load_jsonl`. The file is its text.
--   Orchestrator/Budget        src/caqrs/orchestrator/budget.py: `consume`, `check` and the one report.
--   Orchestrator/LoopDetector  src/caqrs/orchestrator/loop_detector.py: the windows and the probes.
--   Orchestrator/CycleQueue    src/caqrs/orchestrator/cycle_queue.py: each call up to the runner and after
--     it, and any interleaving of callers as the relation Step (CycleQueue/Serial).
--   Orchestrator/CycleRunner   src/caqrs/orchestrator/cycle_runner.py: the runner's data; CycleRunner/Steps
--     has `_call_agent`, `_complete` and `_finalize`, CycleRunner/Phases `run`, cut at each agent. It moves
--     the machine of Orchestrator/StateMachine, whose listener appends to the log, counts tokens with
--     Orchestrator/Budget and asks Policy/Gateway; agents and brokers are the caller's.
--   Orchestrator/Heartbeat     src/caqrs/orchestrator/heartbeat.py: `is_due` and `fire`.
--   Orchestrator/Preflight     src/caqrs/orchestrator/preflight.py: the scans and the message.
--   Schemas/Decision           src/caqrs/schemas/decision.py: the decision and its validators.
--   Policy/Gateway             src/caqrs/policy/gateway.py: `apply_policy_gateway`.
--   Policy/LossBudget          src/caqrs/policy/loss_budget_tracker.py: day marks and the day's loss.
--   Execution/Report           src/caqrs/execution/execution_report.py: fills and reports.
--   Execution/PaperBroker      src/caqrs/execution/paper_broker.py: `execute` and its helpers.
--   Execution/LiveBroker       src/caqrs/execution/live_broker_alpaca.py: the broker and its guards;
--     LiveBroker/Submit has `execute` and `_submit_to_alpaca`. The pre-flight is Execution/PaperBroker.
--     LiveBroker/Protocol has the broker as the runner sees it.
--     LiveBroker/Recording has a venue that notes its requests, which is not code: Rollback and
--     Submitted say by its notes what a report means.
--   Execution/AlpacaRest       src/caqrs/execution/alpaca_rest.py: `submit_order`, `cancel_all_orders`.
--   Execution/Journal          src/caqrs/execution/live_broker_journal.py: the tables and their keys, shared
--     by the live broker, which registers orders, and the stream, which records fills and cancellations.
--   Execution/Stream           src/caqrs/execution/alpaca_stream.py: the decoder; Stream/Consume the loop.
--   Entities/Types, Store, Resolver  src/caqrs/entities/types.py, errors.py, in_memory.py, resolver.py: the
--     issuers and the index of their identifiers, merges, filings, relations and series, and the
--     resolver of tickers.
--   Prelude                    what the others share: tests, lists, text, Python's dict and stable
--     sort, signed integers, the interface to decimal.Decimal, Prelude/Effects, the statements that
--     change a state and may raise, and Prelude/Holds, what holds after them.
--
-- How the state is kept. An object is a record, a method a function that hands back the record as the
-- method leaves it, also where it raises: a call answers `returned` or `raised`, and the state beside
-- the answer is what the exception leaves behind. A log that a guard shares is passed in and handed
-- back. A dict is the list of its entries in insertion order.
--
-- Numbers. Counts are natural numbers, arguments that may be negative are integers, a time is a whole
-- number of microseconds, a day its ordinal. `decimal.Decimal` is an interface (Prelude/Decimal): its
-- order is exact, and its sums, products and quotients are rounded, so a theorem that needs exact
-- arithmetic has that as a hypothesis (IsExact), and one that needs the order's laws has IsOrdered.
-- Prelude/Decimal/Whole is an instance of both that the tests run on. Every loop goes through a list;
-- only the digits of a number (Orchestrator/Preflight) have fuel, one more than the number, and
-- digits_enough there says that more changes nothing.
--
-- Parameters, for code that is not the program's: the JSON of an event (Codec, with IsReadable for what
-- a round trip relies on), `json.dumps` and `str.lower` of a recorded call or text, decimal.Decimal and
-- what it makes of a text (Parsed), the HTTP library and the venue behind it (Http), `json.dumps` and
-- `hashlib.sha256` of an order (Digest), and a float's text with one decimal.
--
-- Not modelled: random ids and times of events; the message of a violation or of a detection, with its
-- limit of 400 characters; failures of the file system and of SQLite; threads; the websocket and the
-- command line of the live broker. The reconciliation of entities and the data clients are not in the
-- library; agents and providers are prompts, subprocesses and HTTP.
pub mod Prelude
pub mod Schemas
pub mod Policy
pub mod Execution
pub mod Entities
pub mod Orchestrator
