-- ===== src/Suppliers/Allocations.antt =====
-- `SupplierPaymentAllocationsService`
-- (backend/src/modules/suppliers/services/supplier-payment-allocations.service.ts). The row locks make
-- the transactions on one invoice serial, which they are here anyway.
pub mod Covered
use stock_flow.Prelude.Int.{◌+ℤ◌, ℤ, pos, ltb_ℤ, leb_ℤ}
use stock_flow.Finance.GlEngine.Balances.{amount}
use stock_flow.Tx.{◌>>◌, ◌>>=◌, throw_if, pure, or_throw, not_found, gets, bad_request, Tx}
use stock_flow.Idempotency.{run_with_idempotency, on_business, Store}
use stock_flow.Suppliers.Tables.{
  sum_allocated_by_payment, sum_allocated_by_invoice, soft_delete_by_payment, is_of_payment,
  is_of_invoice, is_live_payment, is_live_invoice, is_invoice_of, insert_allocation, find_payment,
  allocation_create, SupplierPaymentAllocation, PurchaseInvoiceStatus, Payables,
}
use stock_flow.Prelude.{⊤, true, some, find_many, find_first, false, Option, List, Bool, ℕ}

abbrev pub is_cancelled : PurchaseInvoiceStatus → Bool
is_cancelled PurchaseInvoiceStatus.cancelled = true
is_cancelled s = false

abbrev pub allocation_row : ℕ → ℕ → ℕ → Option ℕ → ℤ → ℕ → SupplierPaymentAllocation
allocation_row supplier company payment invoice amount id = record {
  id = id;
  company = company;
  supplier = supplier;
  payment = payment;
  purchase_invoice = invoice;
  amount = amount;
  is_deleted = false;
}

-- The checks against the locked rows.
unfoldable pub check_room : ℕ → ℕ → ℕ → ℤ → Tx Payables ⊤
check_room company payment_id invoice_id amount = do
  locked_invoice ← gets λ s. find_first (is_live_invoice invoice_id company) s.invoices
  _ ← or_throw locked_invoice not_found
  locked_payment ← gets λ s. find_first (is_live_payment payment_id company) s.payments
  payment ← or_throw locked_payment not_found
  total_allocated ← gets λ s. sum_allocated_by_payment payment_id company s.allocations
  throw_if (ltb_ℤ payment.amount (total_allocated +ℤ amount)) bad_request
  current_invoice ← gets λ s. find_first (is_live_invoice invoice_id company) s.invoices
  invoice ← or_throw current_invoice not_found
  invoice_allocated ← gets λ s. sum_allocated_by_invoice invoice_id company s.allocations
  throw_if (ltb_ℤ invoice.grand_total (invoice_allocated +ℤ amount)) bad_request
  throw_if (ltb_ℤ invoice.grand_total (invoice.paid_amount +ℤ amount)) bad_request

unfoldable pub apply_create_allocation : ℕ → ℕ → ℕ → ℕ → ℤ → Tx Payables SupplierPaymentAllocation
apply_create_allocation supplier company payment_id invoice_id amount = do
  check_room company payment_id invoice_id amount
  λ s.
      insert_allocation
        (allocation_row supplier company payment_id (some invoice_id) amount s.next_id) s

-- Steps 1 to 3 of `create`, before its transaction.
unfoldable pub check_allocation : ℕ → ℕ → ℕ → ℕ → ℤ → Tx Payables ⊤
unfolding find_payment
check_allocation supplier company payment_id invoice_id amount = do
  throw_if (leb_ℤ amount (pos 0)) bad_request
  found ← find_payment payment_id supplier company
  payment ← or_throw found not_found
  throw_if payment.is_deleted bad_request
  owned ← gets λ s. find_first (is_invoice_of invoice_id company supplier) s.invoices
  invoice ← or_throw owned not_found
  throw_if (is_cancelled invoice.status) bad_request

module _ (pending_body : SupplierPaymentAllocation)
    (to_json : SupplierPaymentAllocation → SupplierPaymentAllocation) where
  -- `create`
  unfoldable pub create_allocation :
      ℕ
      → ℕ
      → ℕ
      → ℕ
      → ℤ
      → Option ℕ
      → ℕ
      → ℕ
      → Tx (Store Payables SupplierPaymentAllocation) SupplierPaymentAllocation
  create_allocation supplier company payment_id invoice_id amount key request_hash now = do
    _ ← on_business (check_allocation supplier company payment_id invoice_id amount)
    result ←
        run_with_idempotency pending_body to_json key company allocation_create request_hash now 201
          (apply_create_allocation supplier company payment_id invoice_id amount)
    pure result.1

-- `voidAllocations`
abbrev pub void_allocations : ℕ → ℕ → Tx Payables ℕ
void_allocations payment company = soft_delete_by_payment payment company

unfoldable pub find_allocations_by_payment :
    ℕ → ℕ → ℕ → Tx Payables (List SupplierPaymentAllocation)
find_allocations_by_payment payment_id supplier company = do
  found ← find_payment payment_id supplier company
  _ ← or_throw found not_found
  gets λ s. find_many (is_of_payment payment_id company) s.allocations

unfoldable pub find_allocations_by_invoice :
    ℕ → ℕ → ℕ → Tx Payables (List SupplierPaymentAllocation)
find_allocations_by_invoice invoice_id supplier company = do
  owned ← gets λ s. find_first (is_invoice_of invoice_id company supplier) s.invoices
  _ ← or_throw owned not_found
  gets λ s. find_many (is_of_invoice invoice_id company) s.allocations
