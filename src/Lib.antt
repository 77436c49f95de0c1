-- ===== src/Lib.antt =====
-- MarketPilot: a model of the decision-support service under src/marketpilot of the repository.
--
-- The program watches one instrument. A collector (services/collector_service.py) takes a stream of
-- events from a vendor through states of connection, keeps the quotes it trusts, and says at the end
-- whether the stream permits a decision. Scheduled events lock the decision for a time
-- (events/risk_lock.py). A runner (decision/runner.py) asks the risk gate, and only then a model
-- that must have the identity of the champion that a registry (governance/registry.py) froze for the
-- session. Conditions become alerts in an engine (alerts/engine.py), and what happens is told to
-- people through an outbox (services/alert_delivery_service.py). Facts are recorded as they were first
-- seen and replayed as of an instant (services/replay.py); models are validated on folds that keep
-- the future out of the training set (validation/walk_forward.py); a gate over external evidence and
-- recorded shadow sessions says whether the service may go on (services/readiness.py). The quotes of a
-- stream are judged by an evaluator (domain/data_quality.py) within the hours of two exchanges
-- (domain/trading_calendar.py). Raw payloads are landed behind authorization and encryption
-- (services/raw_landing.py). Market moves are attributed in tasks that people review
-- (services/stream_attribution_service.py). A candidate model is promoted on a frozen holdout
-- (validation/promotion_gate.py), and rules for closing a position are compared on the quotes of a day
-- (validation/exit_rules.py).
--
-- The files, and what each models of src/marketpilot:
--   Base            what all modules share: Boolean tests, keys, lists, Python's dict, methods that
--                   may raise (the object comes back beside the exception), datetimes that are naive
--                   or aware (an aware one is a number of microseconds), strip and blank texts
--   Fixtures        a stand-in for the serialiser and the digest, for examples only
--   Domain          domain/snapshot.py and domain/governance.py: frozen snapshots, model versions,
--                   approvals that are bound to their evidence, governance events
--   Governance      governance/registry.py: the registry of champions. Registry has the methods,
--                   Actions their exact effect, Steps the calls and their sequences, Valid the
--                   invariant; Sessions, Audit and Lineage have the properties
--   RiskLock        domain/events.py and events/risk_lock.py: validation of an event's times, the
--                   assessment and its checkpoints; State has the properties
--   Decision        decision/gates.py, decision/runner.py, models/base.py, models/registry.py,
--                   domain/decision.py and part of domain/market.py; Verdict has the properties
--   Collector       domain/collector.py and services/collector_service.py: Defs has the handlers of
--                   each kind of event (_apply_event), Step the loop of run, and the other files a
--                   property each
--   Domain/Chain    what a chain of digests determines, for every ledger that has one
--   PointInTime     domain/point_in_time.py, services/replay.py and ingest/pit_ledger.py: records of
--                   what was known when, the replay clock, the ledger of batches
--   CostLedger      ingest/cost_ledger.py: the chained ledger of data costs
--   Readiness       domain/readiness.py and services/readiness.py: external evidence, the ledger of
--                   shadow sessions, and the gate that admits them
--   Alerts          domain/alerts.py and alerts/engine.py: Engine has the methods, Validity the
--                   invariant, Reach the calls and their sequences
--   WalkForward     validation/walk_forward.py: the purged split of samples into folds
--   Delivery        domain/alert_delivery.py, services/alert_delivery_store.py and
--                   services/alert_delivery_service.py: Store has the tables, Service the dispatch,
--                   Calls the other methods, Requests their sequences
--   Quality         domain/data_quality.py: Observations has the quotes, the policy and the report,
--                   Evaluator the evaluation; Clean says when it permits a decision. Collector/Feed
--                   is the collector with this evaluator
--   Calendar        domain/trading_calendar.py and ingest/calendar.py: Equity and Globex have the two
--                   calendars; Days and Week have the properties
--   Landing         services/raw_landing.py and ingest/local_landing.py: Objects has the stores and the
--                   local cipher, Service the two operations, Keys what an object's name tells, Sealed
--                   what a landing does, ReadBack the properties
--   Attribution     services/stream_attribution_service.py and services/stream_attribution_store.py with
--                   domain/attribution.py: Reviews has the review workflow, Final its property
--   Promotion       validation/promotion_gate.py: Criteria and Gate have the code, Preregistered when
--                   there is a report, Verdict when it is passed
--   ExitRules       validation/exit_rules.py, with the quotes, fills and settlement of
--                   validation/condor_economics.py (Condor): Simulate has the loop over the minutes,
--                   Reference the plain search that it equals, Hindsight what it does not read
--
-- An object is a record and a method a function of it; a method that may raise gives a result and
-- the object as it then stands, so what was written before an exception stays written. Loops over
-- events, messages and requests are recursion on lists. The walk along parents in lineage is on
-- fuel, one more than the number of registered versions: each round takes a version that no earlier
-- round took. The loop of a walk-forward split is on fuel too, one more than the number of groups:
-- each round moves its offset on by at least one group. The loop of an exit has two rounds more than
-- there are whole minutes from the entry to the close.
--
-- Parameters: json.dumps with SHA-256 (Platform), json.loads (JsonLibrary) and HMAC (Signer), the
-- senders of alerts, the session gate, the models, uuid4, decimal.Decimal
-- (Decimals), floats (Floats, Prices), zoneinfo and the readers of ISO dates, AES-GCM (AesGcm), the
-- formats of dates and strikes, the date in New York of an instant. Nothing is assumed of them except where a theorem says so.
--
-- Files of ledgers are lists of their entries, a float in a payload is its repr, a date its ordinal.
--
-- Not modelled: the server-sent stream of alerts, SQLite, files and their locks, the field patterns that pydantic tests, the range
-- of datetime, that of timedelta except in the delays of retries and reconnections, the rounding of a
-- duration that is computed in floating-point seconds, the order in which a set of reasons is sorted, the serialised
-- records of a run. Numbers of the source that are never negative are natural numbers; the prices
-- of a quote reach the collector only as texts, which it digests.
pub mod Base
mod Fixtures
pub mod Domain
pub mod Governance
pub mod RiskLock
pub mod Decision
pub mod Collector
pub mod Delivery
pub mod PointInTime
pub mod CostLedger
pub mod ExitRules
pub mod Promotion
pub mod Attribution
pub mod Readiness
pub mod Alerts
pub mod Landing
pub mod Calendar
pub mod Quality
pub mod WalkForward
