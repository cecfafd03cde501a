-- ===== src/Suppliers/Payments.antt =====
-- `SupplierPaymentsService` (backend/src/modules/suppliers/services/supplier-payments.service.ts),
-- composed with the ledger engine and with idempotent runs.
use stock_flow.Prelude.Int.{◌-ℤ◌, ℤ, pos, ltb_ℤ, leb_ℤ}
use stock_flow.Suppliers.Allocations.{is_cancelled}
use stock_flow.Finance.GlEngine.Balances.{amount}
use stock_flow.Tx.{
  ◌>>◌, ◌>>=◌, transaction, throw_if, pure, or_throw, not_found, modify, gets, conflict,
  bad_request, Tx,
}
use stock_flow.Idempotency.{on_business, run_with_idempotency, Store}
use stock_flow.Finance.GlEngine.{next_number, execute_post, PostJournalEntryInput}
use stock_flow.Finance.Tables.{supplier_payments, document, Reference, JournalLine}
use stock_flow.Suppliers.Checks.{
  resolve_accounts, AccountPair, write_invoice, resolve_supplier, paid_invoice, open_period_of,
  is_method_account, differs, credit_account, cover_invoice, check_invoice, base_currency,
  accounts_payable_account, CreateSupplierPaymentDto,
}
use stock_flow.Prelude.{
  ◌∷◌, ◌==◌, ◌&&◌, ⊤, ℕ, update_many, true, suc, some, not, none, is_none, if◌then◌else◌,
  find_first, false, count_where, [], Option, List, Bool,
}
use stock_flow.Suppliers.Tables.{
  PaymentAudit, PaymentAction, delete_payment, soft_delete_by_payment, payment_voided,
  payment_created, payment_create, payment_audit, on_ledger, is_live_invoice, insert_payment,
  find_payment, SupplierPayment, PurchaseInvoiceStatus, PurchaseInvoice, Payables,
  is_supplier_payment,
}
pub mod Accounts
pub mod Covered
pub mod Invoiced
pub mod Numbered
pub mod Recorded
pub mod Created

-- referenceType SUPPLIER_PAYMENT and SUPPLIER_PAYMENT_REVERSAL
abbrev pub payment_document : ℕ
payment_document = 1

abbrev pub payment_reversal_document : ℕ
payment_reversal_document = 2

-- An entry of two lines, dated as given, in the period that is open.
abbrev pub two_lines : ℕ → ℕ → ℤ → List JournalLine
two_lines debit_account credit_account' amount =
    record { account = debit_account; debit = amount; credit = pos 0 }
    ∷ record { account = credit_account'; debit = pos 0; credit = amount }
    ∷ []

abbrev pub payment_entry : ℕ → ℕ → ℕ → Reference → ℕ → List JournalLine → PostJournalEntryInput
payment_entry company period date reference user lines = record {
  company = company;
  period = period;
  entry_date = date;
  reference = reference;
  created_by = user;
  client_operation_id = none;
  lines = lines;
}

abbrev pub payment_row : ℕ → CreateSupplierPaymentDto → ℕ → ℕ → ℕ → ℕ → ℕ → ℕ → SupplierPayment
payment_row supplier dto user company currency now number id = record {
  id = id;
  company = company;
  supplier = supplier;
  purchase_invoice = dto.purchase_invoice;
  payment_number = number;
  payment_date = elim dto.payment_date [ none ↦ now | some date ↦ date ];
  amount = dto.amount;
  method = dto.method;
  cash_account = dto.cash_account;
  bank_account = dto.bank_account;
  currency = currency;
  reference = dto.reference;
  notes = dto.notes;
  created_by = user;
  row_version = 0;
  is_deleted = false;
}

-- Steps 6 to 9 of `applyCreatePayment`: the invoice, and the two accounts of the entry.
unfoldable pub prepare_payment :
    ℕ → CreateSupplierPaymentDto → ℕ → ℕ → Tx Payables (Option PurchaseInvoice × AccountPair)
prepare_payment supplier dto company currency = do
  invoice ← check_invoice supplier company dto.purchase_invoice dto.amount currency
  accounts ← resolve_accounts dto.method dto.cash_account dto.bank_account company
  pure (invoice, accounts)

-- Steps 11 to 14: the payment, its allocation and the paid amount of the invoice.
unfoldable pub record_payment :
    ℕ
    → CreateSupplierPaymentDto
    → ℕ
    → ℕ
    → ℕ
    → ℕ
    → Option PurchaseInvoice
    → Tx Payables SupplierPayment
record_payment supplier dto user company currency now invoice = do
  number ← on_ledger (next_number company supplier_payments)
  payment ←
      λ s. insert_payment (payment_row supplier dto user company currency now number s.next_id) s
  cover_invoice supplier company payment invoice
  pure payment

-- Steps 15 and 16: the entry of two lines, and the audit log.
unfoldable pub post_entry : ℕ → ℕ → ℕ → Reference → List JournalLine → PaymentAudit → Tx Payables ⊤
unfolding open_period_of
post_entry company user date reference lines note = do
  period ← open_period_of company
  _ ← on_ledger (execute_post (payment_entry company period date reference user lines))
  payment_audit note

abbrev pub payment_note : PaymentAction → ℕ → ℕ → ℕ → PaymentAudit
payment_note action company user id = record {
  company = company;
  user = user;
  entity_id = id;
  action = action;
}

-- `applyCreatePayment`
unfoldable pub apply_create_payment :
    ℕ → CreateSupplierPaymentDto → ℕ → ℕ → ℕ → ℕ → Tx Payables SupplierPayment
apply_create_payment supplier dto user company currency now = do
  prepared ← prepare_payment supplier dto company currency
  payment ← record_payment supplier dto user company currency now prepared.0
  post_entry company user payment.payment_date (document payment_document payment.id)
      (two_lines prepared.1.payable prepared.1.paid_from dto.amount)
      (payment_note payment_created company user payment.id)
  pure payment

-- Steps 1 to 4 of `create`, before its transaction; the currency of the company.
unfoldable pub check_payment : ℕ → CreateSupplierPaymentDto → ℕ → Tx Payables ℕ
check_payment supplier_id dto company = do
  found ← gets λ s. resolve_supplier supplier_id company s.suppliers
  supplier ← or_throw found not_found
  throw_if (supplier.is_deleted && is_none dto.purchase_invoice) bad_request
  throw_if (leb_ℤ dto.amount (pos 0)) bad_request
  currency ← gets λ s. base_currency company s.companies
  throw_if (differs dto.currency currency) bad_request
  throw_if (not (is_method_account dto)) bad_request
  pure currency

module _ (pending_body : SupplierPayment) (to_json : SupplierPayment → SupplierPayment) where
  -- `create`
  unfoldable pub create_payment :
      ℕ
      → CreateSupplierPaymentDto
      → ℕ
      → ℕ
      → Option ℕ
      → ℕ
      → ℕ
      → Tx (Store Payables SupplierPayment) SupplierPayment
  create_payment supplier_id dto user company key request_hash now = do
    currency ← on_business (check_payment supplier_id dto company)
    result ←
        run_with_idempotency pending_body to_json key company payment_create request_hash now 201
          (apply_create_payment supplier_id dto user company currency now)
    pure result.1
