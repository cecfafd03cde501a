-- ===== src/Suppliers/Voiding.antt =====
-- `void` and `patch` of `SupplierPaymentsService`
-- (backend/src/modules/suppliers/services/supplier-payments.service.ts).
pub mod Covered
pub mod Voided
use stock_flow.Suppliers.Payments.{two_lines, post_entry, payment_reversal_document, payment_note}
use stock_flow.Prelude.Int.{◌-ℤ◌, pos, ltb_ℤ}
use stock_flow.Suppliers.Allocations.{is_cancelled}
use stock_flow.Finance.Tables.{document}
use stock_flow.Suppliers.Checks.{resolve_accounts, AccountPair, write_invoice, paid_invoice}
use stock_flow.Tx.{
  ◌>>◌, ◌>>=◌, transaction, throw_if, pure, or_throw, not_found, modify, gets, conflict,
  bad_request, Tx,
}
use stock_flow.Suppliers.Tables.{
  soft_delete_by_payment, payment_voided, is_supplier_payment, is_live_invoice, find_payment,
  delete_payment, SupplierPayment, PurchaseInvoiceStatus, PurchaseInvoice, Payables,
}
use stock_flow.Prelude.{
  ◌==◌, ◌&&◌, ⊤, update_many, suc, some, none, find_first, count_where, Option, Bool, ℕ,
}

-- `softDelete`
unfoldable pub soft_delete_payment : ℕ → ℕ → ℕ → Tx Payables ⊤
soft_delete_payment id supplier company = do
  count ← gets λ s. count_where (is_supplier_payment id supplier company) s.payments
  modify λ s. record s {
    payments = update_many (is_supplier_payment id supplier company) delete_payment s.payments;
  }
  throw_if (count == 0) not_found

-- Step 6 of `void`.
unfoldable pub restore_invoice : ℕ → SupplierPayment → Option PurchaseInvoice → Tx Payables ⊤
restore_invoice company payment none = pure tt
restore_invoice company payment (some invoice) = do
  let restored_paid = invoice.paid_amount -ℤ payment.amount
  throw_if (ltb_ℤ restored_paid (pos 0)) bad_request
  write_invoice invoice company (
      paid_invoice (ltb_ℤ restored_paid invoice.grand_total) PurchaseInvoiceStatus.approved
        restored_paid)

-- The invoice of a payment that is to be voided.
unfoldable pub invoice_to_restore : ℕ → Option ℕ → Tx Payables (Option PurchaseInvoice)
invoice_to_restore company none = pure none
invoice_to_restore company (some invoice_id) = do
  found ← gets λ s. find_first (is_live_invoice invoice_id company) s.invoices
  invoice ← or_throw found not_found
  throw_if (is_cancelled invoice.status) bad_request
  pure (some invoice)

-- Steps 4 to 6 of `void`.
unfoldable pub withdraw_payment : SupplierPayment → Option PurchaseInvoice → ℕ → ℕ → Tx Payables ⊤
withdraw_payment payment invoice supplier company = do
  soft_delete_payment payment.id supplier company
  _ ← soft_delete_by_payment payment.id company
  restore_invoice company payment invoice

-- The body of the transaction in `void`.
unfoldable pub apply_void :
    SupplierPayment → Option PurchaseInvoice → AccountPair → ℕ → ℕ → ℕ → ℕ → Tx Payables ⊤
apply_void payment invoice accounts supplier company user now = do
  withdraw_payment payment invoice supplier company
  post_entry company user now (document payment_reversal_document payment.id)
      (two_lines accounts.paid_from accounts.payable payment.amount)
      (payment_note payment_voided company user payment.id)

-- Steps 1 to 3 of `void`, before its transaction: the payment, its invoice and the two accounts.
unfoldable pub prepare_void :
    ℕ → ℕ → ℕ → Tx Payables (SupplierPayment × Option PurchaseInvoice × AccountPair)
unfolding find_payment
prepare_void payment_id supplier company = do
  found ← find_payment payment_id supplier company
  payment ← or_throw found not_found
  invoice ← invoice_to_restore company payment.purchase_invoice
  accounts ← resolve_accounts payment.method payment.cash_account payment.bank_account company
  pure (payment, invoice, accounts)

-- `void`
unfoldable pub void_payment : ℕ → ℕ → ℕ → ℕ → ℕ → Tx Payables ⊤
void_payment payment_id supplier company user now = do
  prepared ← prepare_void payment_id supplier company
  transaction (apply_void prepared.0 prepared.1 prepared.2 supplier company user now)

-- where { id, supplierId, companyId, rowVersion, deletedAt: null }
abbrev pub is_payment_version : ℕ → ℕ → ℕ → ℕ → SupplierPayment → Bool
is_payment_version id supplier company version p =
    is_supplier_payment id supplier company p && p.row_version == version

-- A column that a patch leaves out stays.
abbrev pub patch_column : Option (Option ℕ) → Option ℕ → Option ℕ
patch_column none old = old
patch_column (some new) old = new

-- `patch`, with the guarded `update` of the repository.
unfoldable pub patch_payment :
    ℕ → ℕ → ℕ → ℕ → Option (Option ℕ) → Option (Option ℕ) → Tx Payables SupplierPayment
patch_payment payment_id supplier company version reference notes = do
  found ← find_payment payment_id supplier company
  _ ← or_throw found not_found
  count ← gets λ s. count_where (is_payment_version payment_id supplier company version) s.payments
  modify λ s. record s {
    payments =
        update_many (is_payment_version payment_id supplier company version)
          (λ p. record p {
            reference = patch_column reference p.reference;
            notes = patch_column notes p.notes;
            row_version = suc p.row_version;
          })
          s.payments;
  }
  throw_if (count == 0) conflict
  updated ← gets λ s. find_first (λ p. p.id == payment_id) s.payments
  or_throw updated not_found
