-- ===== src/Lib.antt =====
-- Verification of evenkeel, a wallet service: money moves through one service that claims an
-- idempotency key, takes a lock, changes a wallet under a version check beside a ledger entry, commits
-- and stores a receipt. Paths are from the repository's root.
--
-- Domain/Money, Domain/Wallet, Domain/Ledger, Domain/Errors: src/evenkeel/domain and
-- src/evenkeel/application/errors.py. A constructor or method is a function into Result. An amount is
-- a Python Decimal, a coefficient and an exponent (Domain/Decimal); the laws read it in whole cents.
-- Identifiers are UUIDs as numbers, printed by Domain/Uuid. What Python knows of Unicode is a
-- parameter.
--
-- Ports: the values of src/evenkeel/application/ports.
--
-- Memory/Idempotency, Memory/RateLimit, Memory/Locking, Memory/Bulkhead: the adapters of
-- src/evenkeel/infrastructure/adapters/memory. A method takes the clock's reading, in milliseconds,
-- and the stored dict, and returns its answer and the dict it leaves. Such a method has no await
-- inside, so a sequence of timed calls is an interleaving of tasks. Of the lock only the entry that
-- does not wait is modelled. Ports/Polling: the loop of the entries that try again until a deadline,
-- on fuel; with a clock that goes on in every round, the waiting time and two rounds are enough.
--
-- Sqla: the tables and repositories of src/evenkeel/infrastructure. A statement is an operation on
-- lists of rows that enforces the keys and checks of tables.py; NUMERIC(20, 2) columns hold whole
-- cents. A transaction is the committed tables beside the working ones. Row locks and the isolation of
-- concurrent transactions are not modelled: a call of the service runs from tables that no other
-- transaction changes. Sqla/Paging: the lists by pages, and a client that follows their cursors
-- (Sqla/Cursor, with Python's base64); a client's reads are on fuel of one more than the rows there
-- are, since a page that is not the last has a row at least.
--
-- Application/Action: a coroutine is a function from the world to a result and the world it leaves, so
-- what was done before a raise stays done; Application/Triple has the rules to reason about it. A
-- raise of a library is a `driver` error with the name of its class; `is_exception` tells those that
-- `except Exception` catches from a cancellation and its like.
-- Application/Movement: src/evenkeel/application/services/wallet_movement.py over a record of its
-- ports; Movement/Wired puts the repositories behind them, with every other adapter arbitrary, and any
-- statement may first raise what `fault` raises. Application/MoveMoney: the interactors of
-- src/evenkeel/application/interactors/wallets/move_money.py over the limiter, the risk provider and
-- the service. Application/OpenWallet and Application/ReadWallets: the other interactors beside it.
--
-- Http: the outbound client and the risk mapping of src/evenkeel/infrastructure/adapters/http over a
-- session that is a parameter: its post, its clock, its random numbers. The attempts of a call are
-- counted down from the policy's number of them; `read_capped` runs on fuel of one more than its
-- limit, which is enough since every read but the last returns a byte at least. Http/Call puts the
-- bulkhead, the metric and the risk provider's request around it, the bulkhead being the port's.
--
-- Redis: the adapters of src/evenkeel/infrastructure/adapters/redis. The server is a parameter, with
-- the commands that the adapters use, each at an instant of its clock, and what Redis documents of
-- them as named hypotheses; a script is one step. What the client raises is given, and a command that
-- it raises for is taken not to have run. Redis/Idempotency is held against Memory/Idempotency.
--
-- Jwt and Logging: src/evenkeel/infrastructure/adapters/jwt, with dev_identity.py beside it, and the
-- redaction of src/evenkeel/logging.py. The JWT and JSON libraries, and what Python knows of a
-- character, are parameters. The key cache is changed under its lock, so a call of `get` is what it
-- returns at once, and else one step from the cache as the lock finds it, for each way that a fetch
-- ends.
--
-- Presentation: src/evenkeel/presentation. Problem and Correlation are the error documents and the
-- middleware of the HTTP side, Wallets its handlers, each over the interactor that it is given, and
-- Mcp the tools over the same interactors, Tools being what a tool comes to; Probes is the health of
-- the process and its database.
--
-- Setup/Config and Setup/Wiring: the production checks of src/evenkeel/setup/config.py, and what the
-- entry points, the providers and `create_app` choose by the settings.
--
-- Durations in metrics, log lines and the SHA-256 digest (a parameter) are left out. Not modelled:
-- the framework's validation of requests and the pydantic schemas behind it, the redaction inside a
-- rendered log message, the metrics libraries, and the construction of the adapters once they are chosen.
pub mod Prelude
pub mod Domain
pub mod Ports
pub mod Memory
pub mod Sqla
pub mod Http
pub mod Redis
pub mod Jwt
pub mod Logging
pub mod Setup
pub mod Application
pub mod Presentation
pub mod Tests
