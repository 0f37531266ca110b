-- ===== src/Lib.antt =====
-- HomTech Supplier Hub: purchases of vouchers and top-ups for several consumers, from several
-- suppliers.
--
-- Hub (api/hub): consumers post purchase requests, workers claim them one by one, price and check
-- them with the supplier, pay, and ask for the status until the purchase is settled; operators decide
-- on purchases whose outcome stays unknown.
--
--   Prelude            lists, text, numbers, decimals and JSON values, as Python has them
--   Hub/Domain         api/hub/domain.py: states, requests and purchases
--   Hub/Provider       api/hub/providers/base.py: a supplier's answers and the calls it takes
--   Hub/Errors         the exceptions, as values
--   Hub/Crypto         api/hub/crypto.py; hashlib and pgcrypto are parameters
--   Hub/Settings       api/hub/config.py: Settings, live_pay_allowed, readiness_errors; Load has
--                      load_settings and what it reads
--   Hub/Repository     api/hub/repository.py: Table (the tables), Create (create_or_get, get), Claim
--                      (claim_due), Marks (_transition and the mark_* methods, defer_topup,
--                      topup_allowed), Reconcile (resolve_attention, read_result,
--                      read_result_for_operator), Queries (list_requires_attention, list_purchases,
--                      list_events, list_events_for_operator, observability_summary); Sql what
--                      depends on the database's set-up; Effects, Decided, Created, Change, Sound,
--                      Later, Leases, Unleased, Handover and Repeats hold what is proved of them
--   Hub/Program        a run of the service as a tree of transactions and supplier calls
--   Hub/Service        api/hub/service.py: Enqueue (enqueue), Process (process_claimed); Arming, Armed
--                      and Accepted hold what is proved of them
--   Hub/Operator       api/hub/operator_service.py: OperatorService.resolve
--   Hub/Api            api/hub/app.py: who is let in and the answer of every route; Purchases (the routes
--                      of consumers), Operators, Suppliers (ready and the routes that ask the supplier);
--                      Private, Requests, Audited and Steps hold what is proved of them
--   Hub/InterHub       api/hub/providers/interhub.py: _normalize, extract_secret, redact_payload
--   Hub/World          api/hub/worker.py and everything together: the tables, the workers in the middle
--                      of a purchase, and the calls that the supplier has received
--
-- Airpay (api/airpay_runtime): one supplier with its own journal of transactions. An operator's
-- transaction is checked and priced, paid, reconciled by repeating the same payment, and its voucher
-- fetched, one call at a time under its lock; an owner decides on an outcome that stays unknown.
--
--   Airpay/Http        HTTPException, as a value
--   Airpay/Money       amount_value (airpay_preparation.py), available_airpay_funds (airpay_service.py)
--   Airpay/Catalogue   normalize_airpay_fields, normalize_airpay_services and get_service
--                      (airpay_service.py)
--   Airpay/Preparation build_check_payload and validate_patterns (airpay_preparation.py), and the form that
--                      AirpayBatch.renew reads back (airpay_batch.py)
--   Airpay/Transaction a row of airpay_transactions, transaction_outcome (airpay_contract.py)
--   Airpay/Answer      normalize_check (airpay_preparation.py), validate_response and quote_amount
--                      (airpay_purchase.py)
--   Airpay/Run         a call as the sequence of its updates and requests
--   Airpay/Purchase    AirpayPurchase.check
--   Airpay/Payment     AirpayPurchase.pay, send_pay and reconcile
--   Airpay/Voucher     AirpayPurchase.voucher, the voucher fields of AirpayRecord.update
--   Airpay/Resolution  airpay_resolution.py, AirpayRepository.resolve
--   Airpay/Journal     one transaction with all calls, answers, stops, decisions and renewals
--   Airpay/Batch       batch_view (airpay_batch.py); Check and Pay have AirpayBatch.check
--                      and AirpayBatch.pay
--   Airpay/History     airpay_history.py, AirpayRepository.history and cutover_status
--   Airpay/Jobs        airpay_jobs.py: AirpayJobStore.enqueue, cancel and run_one; Work has
--                      AirpayJobs.execute and every interleaving of callers and workers; Queue has
--                      get, active, latest and candidates, Order and Paging what is proved of them
--   Airpay/JobResult   hide_codes (airpay_jobs.py)
--
--   Tests              runs on sample values
--
-- A transaction of the hub's repository returns the new tables, or an error and the tables as they
-- were. The service is a program tree, so that between any two of its actions the other processes may
-- run, and a worker may stop at any point: a run of the hub is any list of actions. The clock, the
-- UUIDs and the supplier's answers come with the actions and are arbitrary. In the Airpay journal the
-- lock keeps a second call away, and the running one may stop at any point. Only the paging of
-- Airpay/Jobs/Queue runs on fuel, which one unit for each 32 jobs and one more suffice for; all other
-- functions are structural.
--
-- A UUID is its number, a time a number of seconds, a text the list of its code points, an amount of
-- Airpay its cents. The tables keep the constraints of migrations/*.sql in their operations: an insert
-- or update that would violate a unique index returns the error. The order of texts, the lowering of
-- characters for ILIKE, and each run of ORDER BY where it leaves rows open are the database's own, and
-- parameters. A float is the decimal that its `str` prints.
--
-- Not modelled: HTTP and TLS, the parsing of requests by pydantic, api/hub/airpay_app.py, the routes of
-- api/airpay_runtime/airpay_api.py, the signing and the storing of drafts
-- (AirpayPreparation.prepare, AirpayRepository.create), the other operations of AirpayBatch,
-- queue_diagnostics, the lists of operators' actions and accesses (plain selects),
-- api/hub/stock_snapshot.py, airpay_diagnostics.py, and the scripts.
pub mod Prelude
pub mod Hub
pub mod Airpay
mod Tests
