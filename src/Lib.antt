-- ===== src/Lib.antt =====
-- A model of household-back, the backend of a shared household ledger (FastAPI and SQLAlchemy).
--
-- The program keeps accounts, transactions between them, and portfolios of investments, each of one
-- household. A request runs in one database session (app/core/database.py), which commits when the
-- handler returns and rolls back when it raises. Balances are not stored: they are added up from
-- the rows. A portfolio item stores a quantity and an average price, which a replay of its trades
-- derives again after every change.
--
-- Files, and the code that they are about:
--   Base, Paging: numbers, lists and table scans that the parts share; the theorem on cursor paging
--     is generic in the sort order.
--   Core: app/core. Errors is exceptions/error_code.py with `raise` as a result, Session is
--     `get_db`, Dates and Text are Python's dates and `str.strip`, Decimals is Python's `decimal`
--     with 28 digits and rounding half to even.
--   Model: the tables, from app/domain/*/model.py and enum.py; Db is the whole database.
--   Finders: the lookups by id that several services use.
--   Transaction: app/domain/transaction. Schema (schema.py), Repository and Sums (repository.py),
--     Validation, Response, Service and Ledger (service.py), Rules (the shape of a stored row).
--     `owned_transaction` is the lookup and owner check that each operation starts with, and
--     `serve_tx` the three routes that change rows (router.py).
--   Portfolio: app/domain/portfolio. Schema, Repository, Replay (`_recompute_realized_pnl` and
--     `_recalc_item_from_transactions`), Response, Service (create, buy, sell, and the changes of
--     trades) and Holdings (the operations on an item alone). Books states that quantities agree
--     with trades. A trade is a row of PortfolioTransaction.
--   Account: app/domain/account. Schema, Repository, Balance (one account, and the batch without
--     N+1 queries), Service (create, update, delete with its cascade, detail and the lists) and
--     Report (the monthly report). It reads Transaction.Sums and Portfolio.Repository, as the code
--     does.
--   Household: app/domain/household. Repository, Schema, Service (create, invite, remove, delete with its
--     cascade, detail, and `get_current_household` of deps.py), Rules (the shape of stored
--     households), Steps and Runs (requests as a step relation), Closed, Closing and Access.
--   Idempotency: app/core/idempotency. Store (repository.py and service.py),
--     Middleware (`dispatch` and its helpers), Rows, Dispatch and Sequential (one request after the
--     other), Sessions (requests that interleave, each commit a step) with Invariant, Commit, Replay.
--   Listing, Keys: the cursor query that categories and fixed expenses share in shape, and lemmas on
--     UPDATE by key. Listing.Pages reads a whole list page by page.
--   Category, Fixed: app/domain/category and app/domain/fixed, each with Service and the theorems;
--     Fixed.Schema has the requests.
--   Snapshot: app/domain/account_snapshot and portfolio/snapshot_service.py. Holdings (the holdings and
--     the balance of a past day, and the valuation of market_price/service.py), Histories (the
--     queries, and the record of holdings), Service (the manual snapshot and the loops of the monthly
--     run), Report (the yearly report). The proofs are in Months and Single, Apart and Kept, Prices and Valuation; Scans helps.
--   Samples and the modules called Tests: concrete rows and examples.
--
-- A handler is a function from the database to a result that carries the reply and the new database,
-- and on an error no database, since the session rolls back. Tables are lists in the order of
-- insertion; an UPDATE maps over the list. SQL returns groups in no fixed order: the model has one
-- order, and the theorems on sums compare with sums over rows, which no order changes. uuid4, the
-- clock and today's date are arguments. PostgreSQL's ILIKE is a parameter.
--
-- Numbers: ids and time stamps are naturals. Money is an integer of 0.01, the scale of its columns;
-- a quantity is a natural number of 0.0001; their products are integers of 0.000001. Sums and
-- products of stored amounts are exact, as they are in the code below 28 digits; the averages of the
-- replay, which divide, are Decimals with the rounding of Python. `quantize` raises in Python on a
-- result above 28 digits, which the columns cannot reach, and does not here. Inputs have the scale
-- of their columns. Subtraction of naturals stops at 0 where the code has just checked that it
-- does not go below; `shift_months` stops at year 0, where Python raises.
-- Fuel: the count of the digits of a number has the number as its fuel, and each step divides by ten.
-- A reader that follows cursors needs more fuel than the list is long (Listing.Pages).
--
-- Idempotency: a router is any function of the server's state. The SHA-256 digest is an argument, the
-- stored header text is the list of headers, and time is in seconds. In Sessions an INSERT with ON
-- CONFLICT that meets an uncommitted row waits, as it does in PostgreSQL, and every other
-- statement is a step. `scalar_one_or_none` is the first row, which keys make the only one.
-- Python's str.upper and the order of text in PostgreSQL are arguments.
--
-- A snapshot stores its balance rounded to 0.01, half away from 0, as its column does, and answers with
-- the balance before that. A dict of values keeps the last of equal keys.
--
-- Not modelled: the text codec of cursors (a cursor is its decoded tuple), logging, the column
-- last_mdfcn_dt, response wrapping, and these parts: the
-- collection of prices (which the two snapshot routes do first), statistics, authentication, jobs, the
-- demonstration data and migrations. Only the steps of Idempotency.Sessions interleave; elsewhere a
-- request is one step.
pub mod Snapshot
pub mod Base
pub mod Core
pub mod Model
pub mod Paging
pub mod Finders
pub mod Transaction
pub mod Portfolio
pub mod Account
pub mod Samples
pub mod Idempotency
pub mod Household
pub mod Keys
pub mod Listing
pub mod Category
pub mod Fixed
