-- ===== src/Suppliers/Voiding/Covered.antt =====
-- What `void` withdraws: the payment with its allocations, and what it has paid of its invoice
-- (backend/src/modules/suppliers/services/supplier-payments.service.ts).
use stock_flow.Suppliers.Coverage.Withdrawal.{voided-IsCovered, voided}
use stock_flow.Suppliers.Payments.Covered.{write_paid-IsCovered}
use stock_flow.Suppliers.Checks.{write_invoice, paid_invoice, is_version_of}
use stock_flow.Prelude.Int.{ℤ, int_laws, ◌≤ℤ◌, ◌-ℤ◌, pos, ltb_ℤ}
use stock_flow.Suppliers.Voiding.{
  withdraw_payment, soft_delete_payment, restore_invoice, invoice_to_restore,
}
use stock_flow.Tx.{◌>>=◌, throw_if_passed, throw_if, ok, bind_inv, bad_request}
use stock_flow.Suppliers.Tables.{
  soft_delete_by_payment, is_of_payment, delete_allocation, is_supplier_payment, is_live_invoice,
  delete_payment, SupplierPayment, PurchaseInvoiceStatus, PurchaseInvoice, Payables,
}
use stock_flow.Suppliers.Coverage.{IsCovered}
use stock_flow.Prelude.{
  suc, if◌then◌else◌, ◌==◌, ◌&&◌, true, not, sym, ◌≡◌, ⊤, update_many, subst, some, none, inr, inl,
  find_first-All, find_first, arith, ap, Option-cases, Option, ℕ,
}

-- The invoice of the payment that is voided, as it was read.
abbrev pub Restorable : ℕ → Option ℕ → Option PurchaseInvoice → Payables → Type 0
Restorable company none none s = ⊤
Restorable company none (some i) s = ⊥
Restorable company (some id) none s = ⊥
Restorable company (some id) (some i) s =
    find_first (is_live_invoice id company) s.invoices ≡ some i

module _ (company : ℕ) (s : Payables) where
  pub invoice_to_restore_ok :
      (named : Option ℕ) (invoice : Option PurchaseInvoice) (t : Payables)
      → invoice_to_restore company named s ≡ (ok invoice, t)
      → (s ≡ t) × Restorable company named invoice s
  unfolding invoice_to_restore
  invoice_to_restore_ok none invoice t e =
      let nothing : none ≡ invoice = cc in
      (ap (λ p. p.1) e, subst (λ o. Restorable company none o s) nothing tt)
  invoice_to_restore_ok (some id) invoice t e =
      elim (Option-cases (find_first (is_live_invoice id company) s.invoices)) [
        | inl gone ↦ absurd (ground (arith, e, gone))
        | inr (i, there) ↦
            let this : some i ≡ invoice = ground (arith, e, there) in
            (ground (arith, e, there), subst (λ o. Restorable company (some id) o s) this there)
      ]

module _ (id supplier company : ℕ) where
  soft_delete_payment_ok :
      (s t : Payables) (x : ⊤)
      → soft_delete_payment id supplier company s ≡ (ok x, t)
      → t ≡ record s {
        payments = update_many (is_supplier_payment id supplier company) delete_payment s.payments;
      }
  unfolding soft_delete_payment
  soft_delete_payment_ok s t x e = ground (arith, e)

lowered : (a b c : ℤ) → a ≤ℤ c → pos 0 ≤ℤ b → a -ℤ b ≤ℤ c
lowered a b c h k = omega int_laws

restore_invoice-IsCovered :
    (company : ℕ) (p : SupplierPayment) (named : Option ℕ) (invoice : Option PurchaseInvoice)
    (s t : Payables) (x : ⊤)
    → Restorable company named invoice s
    → pos 0 ≤ℤ p.amount
    → restore_invoice company p invoice s ≡ (ok x, t)
    → IsCovered s
    → IsCovered t
unfolding restore_invoice
restore_invoice-IsCovered company p named none s t x found positive e h =
    subst IsCovered (ap (λ r. r.1) e) h
restore_invoice-IsCovered company p none (some i) s t x found positive e h = absurd found
restore_invoice-IsCovered company p (some id) (some i) s t x found positive e h =
    let restored = i.paid_amount -ℤ p.amount in
    let (y, u, guarded, rest) =
      bind_inv (throw_if (ltb_ℤ restored (pos 0)) bad_request)
        (λ _.
          write_invoice i company
            (paid_invoice (ltb_ℤ restored i.grand_total) PurchaseInvoiceStatus.approved restored))
        s t x e in
    let (passed, here) = throw_if_passed (ltb_ℤ restored (pos 0)) bad_request s u y guarded in
    let not_negative : pos 0 ≤ℤ restored = ground arith in
    let before = find_first-All _ (is_live_invoice id company) s.invoices i h.invoice_paid found in
    write_paid-IsCovered i company (ltb_ℤ restored i.grand_total) PurchaseInvoiceStatus.approved
      restored (is_live_invoice id company) s t x (rw (← here) at rest) found not_negative
      (lowered i.paid_amount p.amount i.grand_total before.1 positive) h

voided-Restorable :
    (company : ℕ) (named : Option ℕ) (invoice : Option PurchaseInvoice) (id supplier : ℕ)
    (s : Payables)
    → Restorable company named invoice s
    → Restorable company named invoice (voided id supplier company s)
voided-Restorable company none none id supplier s h = h
voided-Restorable company none (some i) id supplier s h = h
voided-Restorable company (some k) none id supplier s h = h
voided-Restorable company (some k) (some i) id supplier s h = h

-- The amount is taken off what is paid of the invoice, and the invoice is APPROVED again if that is
-- less than its total.
abbrev pub IsRestored : ℕ → ℤ → Option PurchaseInvoice → Payables → Payables → Type 0
IsRestored company amount none s t = t.invoices ≡ s.invoices
IsRestored company amount (some i) s t =
    t.invoices
    ≡ update_many (is_version_of i.id company i.row_version)
        (λ y. record y {
          paid_amount = i.paid_amount -ℤ amount;
          row_version = suc y.row_version;
          status =
              if ltb_ℤ (i.paid_amount -ℤ amount) i.grand_total
              then PurchaseInvoiceStatus.approved
              else y.status;
        })
        s.invoices

restore_invoice_keeps :
    (company : ℕ) (p : SupplierPayment) (invoice : Option PurchaseInvoice) (s t : Payables) (x : ⊤)
    → restore_invoice company p invoice s ≡ (ok x, t)
    → (t.payments ≡ s.payments)
      × (t.allocations ≡ s.allocations)
      × (t.ledger ≡ s.ledger)
      × IsRestored company p.amount invoice s t
unfolding restore_invoice write_invoice
restore_invoice_keeps company p none s t x e = (
  ap (λ r. r.1.payments) (sym e),
  ap (λ r. r.1.allocations) (sym e),
  ap (λ r. r.1.ledger) (sym e),
  ap (λ r. r.1.invoices) (sym e),
)
restore_invoice_keeps company p (some i) s t x e =
    (ground (arith, e), ground (arith, e), ground (arith, e), ground (arith, e))

voided-IsRestored :
    (company : ℕ) (amount : ℤ) (invoice : Option PurchaseInvoice) (id supplier : ℕ) (s t : Payables)
    → IsRestored company amount invoice (voided id supplier company s) t
    → IsRestored company amount invoice s t
voided-IsRestored company amount none id supplier s t h = h
voided-IsRestored company amount (some i) id supplier s t h = h

module _ (p : SupplierPayment) (invoice : Option PurchaseInvoice) (supplier company : ℕ) where
  -- Payment and allocations are withdrawn and the invoice is restored; the ledger stays.
  pub record IsWithdrawn (s t : Payables) : Type 0 where
    pub payments :
        t.payments
        ≡ update_many
            (λ y.
              y.id == p.id && y.supplier == supplier && y.company == company && not y.is_deleted)
            (λ y. record y { is_deleted = true })
            s.payments
    pub allocations :
        t.allocations
        ≡ update_many
            (λ y. y.payment == p.id && y.company == company && not y.is_deleted)
            (λ y. record y { is_deleted = true })
            s.allocations
    pub invoices : IsRestored company p.amount invoice s t
    pub ledger : t.ledger ≡ s.ledger

  pub withdraw_payment_ok :
      (s t : Payables) (x : ⊤)
      → Restorable company p.purchase_invoice invoice s
      → pos 0 ≤ℤ p.amount
      → withdraw_payment p invoice supplier company s ≡ (ok x, t)
      → IsCovered s
      → IsCovered t × IsWithdrawn s t
  unfolding withdraw_payment soft_delete_by_payment
  withdraw_payment_ok s t x found positive e h =
      let (y, u, deleted, rest) =
        bind_inv (soft_delete_payment p.id supplier company)
          (λ _. soft_delete_by_payment p.id company >>= λ _. restore_invoice company p invoice) s t
          x e in
      let here = soft_delete_payment_ok p.id supplier company s u y deleted in
      let rest' : restore_invoice company p invoice (voided p.id supplier company s) ≡ (ok x, t) =
        subst
          (λ w.
            restore_invoice company p invoice (record w {
              allocations =
                  update_many (is_of_payment p.id company) delete_allocation w.allocations;
            })
            ≡ (ok x, t))
          here rest in
      let found' = voided-Restorable company p.purchase_invoice invoice p.id supplier s found in
      let (payments, allocations, ledger, invoices) =
        restore_invoice_keeps company p invoice (voided p.id supplier company s) t x rest' in
      (
        restore_invoice-IsCovered company p p.purchase_invoice invoice
            (voided p.id supplier company s) t x found' positive rest'
            (voided-IsCovered p.id supplier company s h),
        record {
          payments = payments;
          allocations = allocations;
          invoices = voided-IsRestored company p.amount invoice p.id supplier s t invoices;
          ledger = ledger;
        },
      )
