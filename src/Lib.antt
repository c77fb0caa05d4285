-- ===== src/Lib.antt =====
-- A model of the accounts, credits, subscriptions and webhooks of the authentication service, and the
-- theorems that make them correct.
--
-- The parts. A request reaches a router, which calls a service on a session of the database. The
-- credit service (app/services/credit) keeps a balance for each user beside a list of transactions; it
-- sells credits and plans, verifies payments with Stripe, and renews and cancels subscriptions. Stripe
-- calls back: the endpoint (app/routers/webhooks/stripe_webhooks.py) dispatches each event to a handler
-- (app/services/webhook_service.py), which updates users and subscriptions and grants the free trial's
-- credits. The routes of app/routers/auth authenticate a user by password, by a signed token or at
-- Google, and call `UserService` and `OAuthService`, which keep accounts and one-time tokens. The parts
-- share the tables, and nothing else.
--
-- The files.
--   Prelude         tests, lists, integers and the lemmas that the parts share.
--   Db/Schema       the tables of app/models, a record for each row, and their constraints.
--   Db/Session      a session as a state and exception monad: the committed database, the one that the
--                   session sees, the outcomes of its next calls, and what it has published.
--   Db/Ensures      triples for database invariants; Db/Keeps has them as rules for proof search.
--   Db/OnlyHttp     operations that raise no exception but `HTTPException`.
--   Db/Retry        `classify_exception` and `with_exponential_backoff` of app/core/db_utils.py.
--   Db/Degradation  `get_db` of app/core/database.py: its retries and the degraded mode.
--   Stripe          app/services/credit/stripe_integration.py, over the answers of a `StripeApi`.
--   Credit/Account  base.py, decorators.py and utils.py of app/services/credit; Credit/Renewal is
--                   `calculate_renewal_date`, Credit/Plans is plan.py, Credit/Purchase and
--                   Credit/Verified are transaction.py, Credit/Subscriptions is subscription.py, whose
--                   `cancel_subscription` is `cancel_user_subscription` here.
--   Credit/Ledger   the balances against the transactions. Credit/Writes says what an invariant has to
--                   be kept by, and its children lift that to every operation.
--   Webhook         Users, Trials, Updates and Invoices are the handlers, Endpoint the endpoint with
--                   `is_event_processed` and `mark_event_as_processed`; Writes as for the credits.
--   Trial           the free trial's credits.
--   Requests        every operation as a request, and sequences of requests, each on a session of its
--                   own, with any failures.
--   Accounts        Users, Tokens, EmailChange and Eligibility are app/services/user_service.py, Google
--                   is app/services/oauth_service.py, Jwt app/core/security.py, Auth app/core/auth.py
--                   with the requests that a bearer token authenticates, Routes the routes of
--                   app/routers/auth. Tokens/Table has the one-time tokens as an abstract table.
--   Accounts/Requests  the routes as requests, each on a session of its own, with any failures, and
--                   what sequences of them keep.
--   Tests           concrete runs.
--
-- How code is modelled. A method that Python splits by `if` on an optional value is here a function by
-- clauses for each case, named for what it does. A call of the database takes the next outcome of the
-- session's `faults`, which may be any exception; calls past that list succeed. A rollback is such a
-- call; one that fails raises `rollback_failed` and leaves what the session sees. Sessions neither flush
-- on their own nor expire objects, as app/core/database.py configures them, and no modelled query
-- follows an unflushed write that it would have to see. `flush` and `commit` check the unique and
-- not-null constraints. After an exception, attributes of objects can still be read, and calls answer
-- as before. One counter stands for the sequences of primary keys. The clock's reading, the next random
-- reference and `settings.FREE_TRIAL_CREDITS` are arguments.
--
-- Amounts of credits are integers of cents, amounts of money in responses of tenths of a cent. Texts
-- that are only compared are numbers, 0 being the empty one; a user id in an event's metadata is
-- the number that its text denotes, and `is_text` says where Python compares that text with a column;
-- whether the driver takes a text for a number is among the outcomes of the call. `test` says of a text whether it contains "Verified". The column's default stands
-- for the status `None` that `purchase_plan` passes without a Stripe id. E-mails and internal events are
-- values in the session's outbox, in the order in which they are sent, without their contents.
-- `plus_days` walks month by month on fuel: 3 rounds cover the 30 days for which it is called.
-- bcrypt, the signing and the reading of tokens, the answers of Google, the clock and the random tokens
-- are parameters of the accounts, with what a theorem needs of them among its conditions. A retry is
-- structural recursion on the retries that are left, so that no fuel is needed.
-- `Platform.first_is_awaitable` says whether `await result.scalars().first()` works; with SQLAlchemy's
-- sessions it does not. Requests run one after the other; interleavings of two sessions are not
-- modelled.
--
-- Not modelled: the texts of e-mails, configuration, logging and health checks; the delays of
-- `get_db`; the credit router, and of the routers for accounts the details of
-- a user's status, the cancellation of a subscription, logging out and the redirects to Google; the
-- validation of request bodies; the check of webhook signatures; the analysis of Stripe
-- transactions; the listing of transactions; what the handler of `checkout.session.completed` logs
-- after it has associated the customer; and of the foreign keys those that do not stop the deletion
-- of a user.
pub mod Prelude
pub mod Db
pub mod Stripe
pub mod Credit
pub mod Webhook
pub mod Trial
pub mod Requests
pub mod Accounts
pub mod Tests
