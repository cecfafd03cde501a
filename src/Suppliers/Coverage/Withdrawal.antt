-- ===== src/Suppliers/Coverage/Withdrawal.antt =====
-- A payment that is withdrawn with its allocations keeps the rest covered.
use stock_flow.Prelude.Int.{◌≤ℤ◌, pos}
use stock_flow.Suppliers.Tables.{
  sum_allocated_by_payment, is_supplier_payment, is_of_payment, is_of_invoice, is_live_payment,
  delete_payment, delete_allocation, Payables,
}
use stock_flow.Suppliers.Coverage.{sum_shrinks, sum_other, sum_deleted, IsCovered}
use stock_flow.Prelude.{
  ◌≡◌, ◌∙◌, ◌==◌, ◌&&◌, update_many-All_kept, update_many, sym, subst, some, inr, inl,
  find_first-update_other, find_first-All, find_first, arith, Bool-cases, ℕ,
}

-- A payment and its allocations that are voided together.
abbrev pub voided : ℕ → ℕ → ℕ → Payables → Payables
voided id supplier company s = record s {
  payments = update_many (is_supplier_payment id supplier company) delete_payment s.payments;
  allocations = update_many (is_of_payment id company) delete_allocation s.allocations;
}

module _ (id supplier company : ℕ) (s : Payables) (h : IsCovered s) where
  pub voided-IsCovered : IsCovered (voided id supplier company s)
  voided-IsCovered = record {
    payments_fit = λ i c p e. elim (Bool-cases (i == id && c == company)) [
      | inl y ↦
          let same : ◌≡◌ {A = ℕ × ℕ} (id, company) (i, c) = ground arith in
          let positive : pos 0 ≤ℤ p.amount =
            find_first-All _ (is_live_payment i c) (voided id supplier company s).payments p
              (update_many-All_kept _ (is_supplier_payment id supplier company) delete_payment
                s.payments (λ q k. k) h.payment_amounts)
              e in
          subst
            (λ (k : ℕ × ℕ).
              sum_allocated_by_payment k.0 k.1 (voided id supplier company s).allocations
              ≤ℤ p.amount)
            same (rw (sum_deleted id company s.allocations) positive)
      | inr n ↦
          let here : find_first (is_live_payment i c) s.payments ≡ some p =
            sym (
              find_first-update_other (is_supplier_payment id supplier company)
                (is_live_payment i c) delete_payment s.payments
                (λ q m. (ground arith, ground arith)))
            ∙ e in
          let same =
            sum_other id company (is_of_payment i c) s.allocations (λ a m. ground arith)
              (λ a. ground arith) in
          rw same (h.payments_fit i c p here)
    ];
    invoices_fit = λ i c row e.
        let less =
          sum_shrinks id company (is_of_invoice i c) s.allocations (λ a. ground arith)
            h.allocation_amounts in
        let before = h.invoices_fit i c row e in omega arith;
    payment_ids = update_many-All_kept _ _ delete_payment s.payments (λ p k. k) h.payment_ids;
    payment_amounts =
        update_many-All_kept _ _ delete_payment s.payments (λ p k. k) h.payment_amounts;
    allocation_ids =
        update_many-All_kept _ _ delete_allocation s.allocations (λ a k. k) h.allocation_ids;
    allocation_amounts =
        update_many-All_kept _ _ delete_allocation s.allocations (λ a k. k) h.allocation_amounts;
    invoice_keys = h.invoice_keys;
    invoice_paid = h.invoice_paid;
  }
