-- ===== src/Suppliers/Payments/Invoiced.antt =====
-- What steps 13 and 14 of `create` write for the invoice that is paid
-- (backend/src/modules/suppliers/services/supplier-payments.service.ts).
use stock_flow.Suppliers.Coverage.Writes.{with_payment, with_allocation}
use stock_flow.Tx.{ok}
use stock_flow.Prelude.Int.{◌+ℤ◌, leb_ℤ}
use stock_flow.Suppliers.Checks.{paid_invoice, is_version_of, cover_invoice}
use stock_flow.Suppliers.Allocations.{allocation_row}
use stock_flow.Finance.Tables.{Ledger}
use stock_flow.Suppliers.Tables.{
  insert_allocation, SupplierPayment, PurchaseInvoiceStatus, PurchaseInvoice, PaymentAudit,
  Payables,
}
use stock_flow.Suppliers.Payments.Covered.{write_invoice_ok}
use stock_flow.Prelude.{
  ◌≡◌, ⊤, ℕ, update_many, sym, suc, some, none, if◌then◌else◌, ap, Option, List, ◌++◌, ◌∷◌, [],
  false,
}

-- An active allocation of the whole amount is appended, and the amount is added to what is paid of
-- the invoice, which is PAID if that is its total. Without an invoice nothing is written.
abbrev pub IsCovering :
    ℕ → ℕ → SupplierPayment → Option PurchaseInvoice → Payables → Payables → Type 0
IsCovering supplier company p none s t = (t.allocations ≡ s.allocations) × (t.invoices ≡ s.invoices)
IsCovering supplier company p (some i) s t =
    (t.allocations
      ≡ s.allocations
        ++ (record {
          id = suc s.next_id;
          company = company;
          supplier = supplier;
          payment = p.id;
          purchase_invoice = some i.id;
          amount = p.amount;
          is_deleted = false;
        }
            ∷ []))
    × (t.invoices
        ≡ update_many (is_version_of i.id company i.row_version)
            (λ y. record y {
              paid_amount = i.paid_amount +ℤ p.amount;
              row_version = suc y.row_version;
              status =
                  if leb_ℤ i.grand_total (i.paid_amount +ℤ p.amount)
                  then PurchaseInvoiceStatus.paid
                  else y.status;
            })
            s.invoices)

module _ (supplier company : ℕ) (p : SupplierPayment) where
  pub cover_invoice-IsCovering :
      (invoice : Option PurchaseInvoice) (s t : Payables) (x : ⊤)
      → cover_invoice supplier company p invoice (with_payment p s) ≡ (ok x, t)
      → IsCovering supplier company p invoice s t
  unfolding cover_invoice insert_allocation
  cover_invoice-IsCovering none s t x e =
      (ap (λ r. r.1.allocations) (sym e), ap (λ r. r.1.invoices) (sym e))
  cover_invoice-IsCovering (some i) s t x e =
      let new_paid = i.paid_amount +ℤ p.amount in
      let a = allocation_row supplier company p.id (some i.id) p.amount (suc s.next_id) in
      let written =
        write_invoice_ok i company
          (paid_invoice (leb_ℤ i.grand_total new_paid) PurchaseInvoiceStatus.paid new_paid)
          (with_allocation a (with_payment p s)) t x e in
      (ap Payables.allocations written, ap Payables.invoices written)

  -- The ledger and the audit log have no part in it.
  pub books-IsCovering :
      (invoice : Option PurchaseInvoice) (s t : Payables) (l m : Ledger)
      (notes noted : List PaymentAudit)
      → IsCovering supplier company p invoice
          (record s { ledger = l; audit = notes })
          (record t { ledger = m; audit = noted })
      → IsCovering supplier company p invoice s t
  books-IsCovering none s t l m notes noted h = h
  books-IsCovering (some i) s t l m notes noted h = h
