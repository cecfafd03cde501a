-- ===== src/Sales/CashShift.antt =====
-- Cash shifts (backend/src/modules/sales/services/cash-shift.service.ts): the rows that they read and
-- write, the queries of repositories/cash-shift.repository.ts, and the accounts that they post to.
-- Amounts are integers of 0.0001 units; the texts of notes and reasons are left out.
use stock_flow.Inventory.Tables.{Warehouse}
use stock_flow.Finance.PostingValidation.{is_open}
use stock_flow.Prelude.Int.{◌+ℤ◌, ℤ, pos}
use stock_flow.Finance.Tables.{AccountType, Ledger, FinancialPeriod, Account}
use stock_flow.SalesRefund.Allocation.{PaymentMethod}
use stock_flow.Suppliers.Tables.{Company, is_some_of}
use stock_flow.Suppliers.Checks.{latest, is_account_coded, is_cash}
use stock_flow.Tx.{ok, err, bad_request, Tx, Result}
use stock_flow.Prelude.{
  ◌∷◌, ◌||◌, ◌==◌, ◌&&◌, true, some, not, none, leb, if◌then◌else◌, find_many, find_first, false,
  [], Option, List, Bool, ℕ,
}
pub mod Operations
pub mod Movements
pub mod Steps
pub mod Accounts
pub mod Difference
pub mod Closing
pub mod Raised
pub mod Moved
pub mod Single

pub data CashShiftStatus : Type 0 where
  shift_open shift_closed : CashShiftStatus

pub record CashShift : Type 0 where
  pub id : ℕ
  pub company : ℕ
  pub warehouse : ℕ
  pub cashier : ℕ
  pub status : CashShiftStatus
  pub currency : ℕ
  pub closed_at : Option ℕ
  pub opening_balance : ℤ
  pub closing_balance : ℤ
  pub cash_sales : ℤ
  pub cash_in : ℤ
  pub cash_out : ℤ
  pub expected_closing : ℤ
  pub difference : ℤ
  pub row_version : ℕ

-- A cash account, as the drawer of a warehouse.
pub record CashRegister : Type 0 where
  pub id : ℕ
  pub company : ℕ
  pub warehouse : Option ℕ
  pub chart_account : Option ℕ
  pub currency : ℕ
  pub is_active : Bool
  pub is_deleted : Bool

-- A refund allocation, with the columns of its refund and sale that the aggregate reads.
pub record ShiftRefund : Type 0 where
  pub company : ℕ
  pub method : PaymentMethod
  pub amount : ℤ
  pub is_deleted : Bool
  pub is_completed : Bool
  pub is_refund_deleted : Bool
  pub cash_shift : Option ℕ

pub data ShiftAction : Type 0 where
  shortage overage moved_in moved_out : ShiftAction

pub record ShiftAudit : Type 0 where
  pub company : ℕ
  pub user : ℕ
  pub entity_id : ℕ
  pub action : ShiftAction
  pub journal_entry : ℕ

pub record Till : Type 0 where
  pub companies : List Company
  pub warehouses : List Warehouse
  pub registers : List CashRegister
  pub shifts : List CashShift
  pub refunds : List ShiftRefund
  pub books : Ledger
  pub audit : List ShiftAudit
  pub next_id : ℕ

-- The ledger is written in the same transaction.
unfoldable pub on_books : {A : Type 0} → Tx Ledger A → Tx Till A
on_books work s = let (r, l) = work s.books in (r, record s { books = l })

-- A check that only reads.
abbrev pub reads : {A : Type 0} → (Till → Result A) → Tx Till A
reads f s = (f s, s)

abbrev pub is_shift_open : CashShiftStatus → Bool
is_shift_open shift_open = true
is_shift_open shift_closed = false

-- `findOpenShift` where
abbrev pub is_open_shift : ℕ → ℕ → ℕ → CashShift → Bool
is_open_shift warehouse cashier company c =
    c.warehouse == warehouse
    && c.cashier == cashier
    && c.company == company
    && is_shift_open c.status

-- where { id, companyId, deletedAt: null, isActive: true }
abbrev pub is_live_warehouse : ℕ → ℕ → Warehouse → Bool
is_live_warehouse id company w =
    w.id == id && w.company == company && not w.is_deleted && w.is_active

abbrev pub is_cash_refund : ℕ → ℕ → ShiftRefund → Bool
is_cash_refund company shift r =
    r.company == company
    && is_cash r.method
    && not r.is_deleted
    && r.is_completed
    && not r.is_refund_deleted
    && is_some_of shift r.cash_shift

-- `aggregate` with `_sum`
abbrev pub sum_refunds : (ShiftRefund → Bool) → List ShiftRefund → ℤ
sum_refunds q [] = pos 0
sum_refunds q (r ∷ rs) = if q r then r.amount +ℤ sum_refunds q rs else sum_refunds q rs

abbrev pub drawer_fallback : ℕ
drawer_fallback = 1010

abbrev pub shortage_code : ℕ
shortage_code = 6200

abbrev pub overage_code : ℕ
overage_code = 4210

-- FORBIDDEN_COUNTERPART_CODES
abbrev pub is_forbidden_counterpart : ℕ → Bool
is_forbidden_counterpart code = code == 3200 || code == 3000

abbrev pub is_live_register : ℕ → ℕ → CashRegister → Bool
is_live_register company warehouse r =
    r.company == company && is_some_of warehouse r.warehouse && r.is_active && not r.is_deleted

abbrev pub is_live_chart : ℕ → ℕ → Account → Bool
is_live_chart id company a = a.id == id && a.company == company && a.is_active && not a.is_deleted

abbrev pub is_asset : AccountType → Bool
is_asset AccountType.asset = true
is_asset t = false

-- `assertDrawerAccount`, of the account if there is one
abbrev pub assert_drawer_account : Option Account → Result ℕ
assert_drawer_account none = err bad_request
assert_drawer_account (some a) = if is_asset a.account_type then ok a.id else err bad_request

abbrev pub linked_chart : Option ℕ → ℕ → List Account → Option Account
linked_chart none company accounts = none
linked_chart (some id) company accounts = find_first (is_live_chart id company) accounts

-- The linked account, or the fallback where the link is dead or missing.
abbrev pub drawer_chart : ℕ → List Account → Option Account → Option Account
drawer_chart company accounts (some a) = some a
drawer_chart company accounts none = find_first (is_account_coded company drawer_fallback) accounts

abbrev pub register_drawer : ℕ → ℕ → List Account → List CashRegister → Result ℕ
register_drawer company currency accounts [] =
    assert_drawer_account (drawer_chart company accounts none)
register_drawer company currency accounts (r ∷ []) =
    if r.currency == currency
    then assert_drawer_account
        (drawer_chart company accounts (linked_chart r.chart_account company accounts))
    else err bad_request
register_drawer company currency accounts (r ∷ q ∷ rs) = err bad_request

-- `resolveDrawerAccount`
abbrev pub resolve_drawer_account : ℕ → ℕ → ℕ → Till → Result ℕ
resolve_drawer_account company warehouse currency s =
    register_drawer company currency s.books.accounts
      (find_many (is_live_register company warehouse) s.registers)

abbrev pub is_profit_or_loss : AccountType → Bool
is_profit_or_loss AccountType.expense = true
is_profit_or_loss AccountType.revenue = true
is_profit_or_loss t = false

abbrev pub is_account_of : ℕ → ℕ → Account → Bool
is_account_of id company a = a.id == id && a.company == company

abbrev pub is_counterpart : ℕ → Account → Bool
is_counterpart drawer a =
    a.is_active
    && not a.is_deleted
    && is_profit_or_loss a.account_type
    && not (is_forbidden_counterpart a.code)
    && not a.is_cash_or_bank
    && not (a.id == drawer)

abbrev pub assert_counterpart : ℕ → Option Account → Result ℕ
assert_counterpart drawer none = err bad_request
assert_counterpart drawer (some a) = if is_counterpart drawer a then ok a.id else err bad_request

-- `resolveCounterpartAccount`
abbrev pub resolve_counterpart_account : ℕ → Option ℕ → ℕ → Till → Result ℕ
resolve_counterpart_account company none drawer s = err bad_request
resolve_counterpart_account company (some id) drawer s =
    assert_counterpart drawer (find_first (is_account_of id company) s.books.accounts)

-- `resolveSystemAccount`
abbrev pub resolve_system_account : ℕ → ℕ → Till → Result ℕ
resolve_system_account company code s =
    elim (find_first (is_account_coded company code) s.books.accounts) [
      | none ↦ err bad_request
      | some a ↦ ok a.id
    ]

abbrev pub is_open_on : ℕ → ℕ → FinancialPeriod → Bool
is_open_on company date p =
    p.company == company && is_open p.status && leb p.start_date date && leb date p.end_date

-- `resolveOpenPeriod`: the period that starts last.
abbrev pub resolve_open_period : ℕ → ℕ → Till → Result ℕ
resolve_open_period company date s = elim (find_many (is_open_on company date) s.books.periods) [
  | [] ↦ err bad_request
  | p ∷ ps ↦ ok (latest p ps).id
]
