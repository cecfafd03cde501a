-- ===== src/Suppliers/Payments/Numbered.antt =====
-- What numbering a payment and covering its invoice keep: `nextNumber` of the document sequence and
-- steps 13 and 14 of `create`
-- (backend/src/modules/suppliers/services/supplier-payments.service.ts).
use stock_flow.Suppliers.Coverage.Writes.{with_allocation}
use stock_flow.Tx.{ok}
use stock_flow.Prelude.Int.{◌+ℤ◌, ℤ, leb_ℤ}
use stock_flow.Finance.GlEngine.{next_number, is_sequence}
use stock_flow.Suppliers.Checks.{paid_invoice, cover_invoice}
use stock_flow.Suppliers.Allocations.{allocation_row}
use stock_flow.Suppliers.Tables.{
  insert_allocation, SupplierPayment, PurchaseInvoiceStatus, PurchaseInvoice, Payables,
}
use stock_flow.Finance.GlEngine.Journal.{next_number-shape, IsReconciled}
use stock_flow.Finance.Tables.{SequenceType, Ledger, DocumentSequence}
use stock_flow.Suppliers.Payments.Covered.{write_invoice_ok, Payable}
use stock_flow.Prelude.{
  ◌≡◌, ◌∙◌, ⊤, ℕ, sym, suc, subst, some, none, inr, inl, find_first, ap, Option, List, arith,
  Option-cases,
}

pub ledger-Payable :
    (supplier company : ℕ) (amount : ℤ) (named : Option ℕ) (invoice : Option PurchaseInvoice)
    (s : Payables) (l : Ledger)
    → Payable supplier company amount named invoice s
    → Payable supplier company amount named invoice (record s { ledger = l })
ledger-Payable supplier company amount none none s l h = h
ledger-Payable supplier company amount none (some i) s l h = h
ledger-Payable supplier company amount (some id) none s l h = h
ledger-Payable supplier company amount (some id) (some i) s l h = h

pub cover_invoice-ledger :
    (supplier company : ℕ) (p : SupplierPayment) (invoice : Option PurchaseInvoice) (s t : Payables)
    (x : ⊤)
    → cover_invoice supplier company p invoice s ≡ (ok x, t)
    → s.ledger ≡ t.ledger
unfolding cover_invoice insert_allocation
cover_invoice-ledger supplier company p none s t x e = ap (λ r. r.1.ledger) e
cover_invoice-ledger supplier company p (some i) s t x e =
    let new_paid = i.paid_amount +ℤ p.amount in
    let a = allocation_row supplier company p.id (some i.id) p.amount s.next_id in
    ap Payables.ledger (
      sym (
        write_invoice_ok i company
          (paid_invoice (leb_ℤ i.grand_total new_paid) PurchaseInvoiceStatus.paid new_paid)
          (with_allocation a s) t x e))

pub next_number-IsReconciled :
    (company : ℕ) (type : SequenceType) (l m : Ledger) (n : ℕ)
    → next_number company type l ≡ (ok n, m)
    → IsReconciled l
    → IsReconciled m
next_number-IsReconciled company type l m n e h =
    let (k, qs, numbered) = next_number-shape company type l in
    subst IsReconciled (ap (λ p. p.1) (sym numbered ∙ e)) h

pub next_number_keeps :
    (company : ℕ) (type : SequenceType) (l m : Ledger) (n : ℕ)
    → next_number company type l ≡ (ok n, m)
    → (m.entries ≡ l.entries) × (m.balances ≡ l.balances)
next_number_keeps company type l m n e =
    let (k, qs, numbered) = next_number-shape company type l in
    (ap (λ p. p.1.entries) (sym e ∙ numbered), ap (λ p. p.1.balances) (sym e ∙ numbered))

-- The number after the last one of a counter, 1 for a counter that is not there.
abbrev pub number_after : ℕ → SequenceType → List DocumentSequence → ℕ
number_after company type qs = elim (find_first (is_sequence company type) qs) [
  | none ↦ 1
  | some q ↦ suc q.last_number
]

pub next_number_lem :
    (company : ℕ) (type : SequenceType) (l m : Ledger) (n : ℕ)
    → next_number company type l ≡ (ok n, m)
    → n ≡ number_after company type l.sequences
unfolding next_number
next_number_lem company type l m n e =
    elim (Option-cases (find_first (is_sequence company type) l.sequences)) [
      | inl lost ↦ ground (arith, e, lost)
      | inr (q, there) ↦ ground (arith, e, there)
    ]

pub cover_invoice-payments :
    (supplier company : ℕ) (p : SupplierPayment) (invoice : Option PurchaseInvoice) (s t : Payables)
    (x : ⊤)
    → cover_invoice supplier company p invoice s ≡ (ok x, t)
    → t.payments ≡ s.payments
unfolding cover_invoice insert_allocation
cover_invoice-payments supplier company p none s t x e = ap (λ r. r.1.payments) (sym e)
cover_invoice-payments supplier company p (some i) s t x e =
    let new_paid = i.paid_amount +ℤ p.amount in
    let a = allocation_row supplier company p.id (some i.id) p.amount s.next_id in
    ap Payables.payments (
      write_invoice_ok i company
        (paid_invoice (leb_ℤ i.grand_total new_paid) PurchaseInvoiceStatus.paid new_paid)
        (with_allocation a s) t x e)
