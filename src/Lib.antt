-- ===== src/Lib.antt =====
-- StockFlow backend: a model of its core, with the theorems that make it correct.
--
-- The backend (backend/src) is a NestJS service over PostgreSQL through Prisma. Each operation is one
-- database transaction over a few tables; a thrown HTTP exception rolls it back. So an operation is
-- here a function from the tables to a result or an exception, and the tables after it (Tx), and
-- `transaction` restores the tables on an exception. A table is the list of its rows in the order of
-- creation; `findFirst`, `findMany` and `updateMany` are `find_first`, `find_many` and `update_many`
-- (Prelude/Lists). Optimistic locking on `rowVersion` is written out, as are unique constraints.
-- Concurrent requests appear as the serial order of their transactions.
--
-- * Idempotency (backend/src/infrastructure/idempotency): `reserve`, `complete`, `replay`, `execute`
--   and `cleanupExpired` of idempotency.service.ts and `runWithIdempotency` of idempotency.helper.ts.
--   The recursion of `reserve` has fuel for one call more than there are records. The digest of a
--   payload is an argument, and the round trip of a body through JSON the parameter `to_json`.
-- * Inventory (backend/src/modules/inventory): Tables holds the rows, Repository the queries and guarded
--   writes of repositories/inventory.repository.ts, Reservation `reserve` and `release` of
--   services/reservation.service.ts. Quantities of a stock row are integers, as its columns are.
--   StockMoves is services/stock.service.ts: adjustment and transfer, with the event bus as a
--   parameter. Costing is services/costing.service.ts over the interface Decimal, which stands for
--   decimal.js; its laws (IsExact) are a hypothesis of the one theorem that adds values up.
-- * Finance (backend/src/modules/finance): PostingValidation is `validate` of
--   services/posting-validation.service.ts, GlEngine `post`, `reverse` and `updateAccountBalances` of
--   services/gl-engine.service.ts. Amounts are integers in units of 0.0001, the scale of the columns.
--   Calendar is services/fiscal-calendar.service.ts and services/financial-periods.service.ts with its
--   repository; the instant of the clock, with the bounds of its UTC year and month, is an argument.
-- * Crm (backend/src/modules/crm): CreditLedger is services/customer-credit-ledger.service.ts with its
--   repository. The advisory lock makes the guarded inserts serial, which transactions are here anyway.
-- * Suppliers (backend/src/modules/suppliers): Tables holds the rows and the queries of the two
--   repositories, Checks what `create` of services/supplier-payments.service.ts checks and how it
--   covers an invoice, Payments the whole of `create`, Voiding `void` and `patch`, and Allocations
--   services/supplier-payment-allocations.service.ts. Entries are posted by the ledger engine in the
--   same transaction (`on_ledger`), and a request with a key runs under Idempotency. Row locks are
--   the serial order of transactions; what `void` reads before its transaction is one step with it.
-- * Sales (backend/src/modules/sales): PaymentAllocation is services/payment-allocation.ts. CashShift is
--   services/cash-shift.service.ts with its repository: the rows and the accounts that a shift posts
--   to, Operations with `openShift` and `closeShift`, and Movements with `cashIn` and `cashOut`. They
--   use the calendar and the ledger engine in the same transaction (`on_books`). The only unique
--   constraint that posting meets in this model is that of the client's operation.
-- * SalesRefund (backend/src/modules/sales-refund): Allocation is
--   services/refund-payment-allocation.service.ts. The quotient refundTotal.mul(bucket).div(saleTotal),
--   rounded down by decimal.js, is the parameter `proportion`, and no theorem assumes anything of it.
--   The `while` loop that spreads the remainder is given one unit of fuel more than the remainder
--   has steps, since each round that goes on takes at least one step.
--
-- Machine integers: the columns are 32-bit `Int`; the model's integers are unbounded, so an overflow,
-- which PostgreSQL refuses with an error, does not appear. Texts that only describe a row, and time
-- stamps, are left out. Ids are numbers that are only compared; a fresh one is taken from `next_id`.
--
-- Not modelled: purchasing documents, the sale document itself, journal drafts, the close of
-- a fiscal year, billing, customer and supplier records, reports, the assistant, authentication, the
-- HTTP layer, and the mobile application.
pub mod Prelude
pub mod Tx
pub mod Decimal
pub mod Idempotency
pub mod Inventory
pub mod Finance
pub mod Sales
pub mod SalesRefund
pub mod Crm
pub mod Suppliers
mod Tests
