-- ===== src/Suppliers/Checks.antt =====
-- What a payment to a supplier is checked against, and how it covers an invoice: steps 1 to 14 of
-- `SupplierPaymentsService.create`
-- (backend/src/modules/suppliers/services/supplier-payments.service.ts).
use stock_flow.Prelude.Int.{◌+ℤ◌, ℤ, ltb_ℤ, leb_ℤ}
use stock_flow.Finance.PostingValidation.{is_open}
use stock_flow.Suppliers.Allocations.{allocation_row}
use stock_flow.Tx.{
  ◌>>◌, ◌>>=◌, throw_if, pure, or_throw, not_found, modify, gets, conflict, bad_request, Tx,
}
use stock_flow.SalesRefund.Allocation.{PaymentMethod}
use stock_flow.Prelude.{
  ◌∷◌, ◌==◌, ◌&&◌, ⊤, ℕ, update_many, true, suc, some, not, none, ltb, is_none, if◌then◌else◌,
  find_many, find_first, false, count_where, [], Option, List, Bool,
}
use stock_flow.Finance.Tables.{FinancialPeriod, Account}
use stock_flow.Suppliers.Tables.{
  sum_allocated_by_invoice, is_live_invoice, is_invoice_of, insert_allocation, SupplierPayment,
  Supplier, PurchaseInvoiceStatus, PurchaseInvoice, Payables, MoneyAccount, Company,
}

pub record CreateSupplierPaymentDto : Type 0 where
  pub purchase_invoice : Option ℕ
  pub amount : ℤ
  pub method : PaymentMethod
  pub cash_account : Option ℕ
  pub bank_account : Option ℕ
  pub currency : Option ℕ
  pub payment_date : Option ℕ
  pub reference : Option ℕ
  pub notes : Option ℕ

abbrev pub kzt : ℕ
kzt = 0

-- ACCOUNT_CODES.ACCOUNTS_PAYABLE
abbrev pub accounts_payable : ℕ
accounts_payable = 2100

-- ALLOWED_INVOICE_STATUSES
abbrev pub is_payable : PurchaseInvoiceStatus → Bool
is_payable PurchaseInvoiceStatus.approved = true
is_payable PurchaseInvoiceStatus.paid = true
is_payable s = false

abbrev pub is_active_supplier : ℕ → ℕ → Supplier → Bool
is_active_supplier id company s = s.id == id && s.company == company && not s.is_deleted

abbrev pub is_archived_supplier : ℕ → ℕ → Supplier → Bool
is_archived_supplier id company s = s.id == id && s.company == company && s.is_deleted

-- `resolveSupplierForFinancialRead`
abbrev pub resolve_supplier : ℕ → ℕ → List Supplier → Option Supplier
resolve_supplier id company suppliers =
    elim (find_first (is_active_supplier id company) suppliers) [
      | some s ↦ some s
      | none ↦ find_first (is_archived_supplier id company) suppliers
    ]

-- `getBaseCurrency`
abbrev pub base_currency : ℕ → List Company → ℕ
base_currency company companies = elim (find_first (λ c. c.id == company) companies) [
  | none ↦ kzt
  | some c ↦ c.currency
]

abbrev pub is_cash : PaymentMethod → Bool
is_cash PaymentMethod.cash = true
is_cash m = false

-- `validateMethodAccount`
abbrev pub is_method_account : CreateSupplierPaymentDto → Bool
is_method_account dto =
    if is_cash dto.method
    then not (is_none dto.cash_account) && is_none dto.bank_account
    else not (is_none dto.bank_account) && is_none dto.cash_account

abbrev pub differs : Option ℕ → ℕ → Bool
differs none c = false
differs (some x) c = not (x == c)

abbrev pub is_money_account : ℕ → ℕ → MoneyAccount → Bool
is_money_account id company a = a.id == id && a.company == company && not a.is_deleted

abbrev pub linked_account : ℕ → ℕ → List MoneyAccount → Option ℕ
linked_account id company accounts = elim (find_first (is_money_account id company) accounts) [
  | none ↦ none
  | some a ↦ a.chart_account
]

abbrev pub bank_chart_account : Option ℕ → ℕ → Payables → Option ℕ
bank_chart_account none company s = none
bank_chart_account (some id) company s = linked_account id company s.bank_accounts

-- The chart account of the cash or bank account that the method names, if there is one.
abbrev pub credit_account : PaymentMethod → Option ℕ → Option ℕ → ℕ → Payables → Option ℕ
credit_account method (some cash_account) bank_account company s =
    if is_cash method
    then linked_account cash_account company s.cash_accounts
    else bank_chart_account bank_account company s
credit_account method none bank_account company s = bank_chart_account bank_account company s

abbrev pub is_account_coded : ℕ → ℕ → Account → Bool
is_account_coded company code a =
    a.company == company && a.code == code && a.is_active && not a.is_deleted

abbrev pub is_open_period_of : ℕ → FinancialPeriod → Bool
is_open_period_of company p = p.company == company && is_open p.status

-- orderBy startDate desc: the open period that starts last.
abbrev pub latest : FinancialPeriod → List FinancialPeriod → FinancialPeriod
latest p [] = p
latest p (q ∷ qs) = latest (if ltb p.start_date q.start_date then q else p) qs

abbrev pub latest_open_period : ℕ → List FinancialPeriod → Option ℕ
latest_open_period company periods = elim (find_many (is_open_period_of company) periods) [
  | [] ↦ none
  | p ∷ ps ↦ some (latest p ps).id
]

-- `getAccountsPayableAccountId`
unfoldable pub accounts_payable_account : ℕ → Tx Payables (Option ℕ)
accounts_payable_account company = gets λ s.
    elim (find_first (is_account_coded company accounts_payable) s.ledger.accounts) [
      | none ↦ none
      | some a ↦ some a.id
    ]

-- The accounts of an entry: accounts payable, and the one that the money comes from.
pub record AccountPair : Type 0 where
  pub payable : ℕ
  pub paid_from : ℕ

unfoldable pub resolve_accounts : PaymentMethod → Option ℕ → Option ℕ → ℕ → Tx Payables AccountPair
unfolding accounts_payable_account
resolve_accounts method cash_account bank_account company = do
  found ← accounts_payable_account company
  payable ← or_throw found bad_request
  resolved ← gets (credit_account method cash_account bank_account company)
  paid_from ← or_throw resolved bad_request
  pure (record { payable = payable; paid_from = paid_from })

-- `getOpenPeriodId`
unfoldable pub open_period_of : ℕ → Tx Payables ℕ
open_period_of company = do
  found ← gets λ s. latest_open_period company s.ledger.periods
  or_throw found bad_request

-- Steps 6 to 8b: the invoice that is paid, if one is named.
unfoldable pub check_invoice : ℕ → ℕ → Option ℕ → ℤ → ℕ → Tx Payables (Option PurchaseInvoice)
check_invoice supplier company none amount currency = pure none
check_invoice supplier company (some invoice_id) amount currency = do
  found ← gets λ s. find_first (is_invoice_of invoice_id company supplier) s.invoices
  invoice ← or_throw found not_found
  locked ← gets λ s. find_first (is_live_invoice invoice_id company) s.invoices
  _ ← or_throw locked not_found
  throw_if (not (is_payable invoice.status)) bad_request
  throw_if (not (invoice.currency == currency)) bad_request
  throw_if (ltb_ℤ invoice.grand_total (invoice.paid_amount +ℤ amount)) bad_request
  total_allocated ← gets λ s. sum_allocated_by_invoice invoice_id company s.allocations
  throw_if (ltb_ℤ invoice.grand_total (total_allocated +ℤ amount)) bad_request
  pure (some invoice)

-- where { id, companyId, rowVersion }
abbrev pub is_version_of : ℕ → ℕ → ℕ → PurchaseInvoice → Bool
is_version_of id company version i = i.id == id && i.company == company && i.row_version == version

-- The data of the guarded update: a paid amount, and a status where it changes.
abbrev pub paid_invoice : Bool → PurchaseInvoiceStatus → ℤ → PurchaseInvoice → PurchaseInvoice
paid_invoice changes status new_paid i = record i {
  paid_amount = new_paid;
  row_version = suc i.row_version;
  status = if changes then status else i.status;
}

unfoldable pub write_invoice :
    PurchaseInvoice → ℕ → (PurchaseInvoice → PurchaseInvoice) → Tx Payables ⊤
write_invoice invoice company change = do
  count ← gets λ s. count_where (is_version_of invoice.id company invoice.row_version) s.invoices
  modify λ s. record s {
    invoices = update_many (is_version_of invoice.id company invoice.row_version) change s.invoices;
  }
  throw_if (count == 0) conflict

-- Steps 13 and 14.
unfoldable pub cover_invoice : ℕ → ℕ → SupplierPayment → Option PurchaseInvoice → Tx Payables ⊤
cover_invoice supplier company payment none = pure tt
cover_invoice supplier company payment (some invoice) = do
  _ ← λ s.
      insert_allocation
        (allocation_row supplier company payment.id (some invoice.id) payment.amount s.next_id) s
  let new_paid = invoice.paid_amount +ℤ payment.amount
  write_invoice invoice company
      (paid_invoice (leb_ℤ invoice.grand_total new_paid) PurchaseInvoiceStatus.paid new_paid)
