-- ===== src/Suppliers/Payments/Recorded.antt =====
-- What steps 11 to 14 of `create` leave: a payment with its number, and its invoice covered
-- (backend/src/modules/suppliers/services/supplier-payments.service.ts).
use stock_flow.Suppliers.Payments.Numbered.{
  number_after, next_number_lem, next_number_keeps, next_number-IsReconciled, ledger-Payable,
  cover_invoice-payments, cover_invoice-ledger,
}
use stock_flow.Suppliers.Payments.Invoiced.{IsCovering, cover_invoice-IsCovering, books-IsCovering}
use stock_flow.Suppliers.Coverage.{IsCovered}
use stock_flow.Suppliers.Coverage.Writes.{with_ledger-IsCovered, with_payment}
use stock_flow.Prelude.Int.{◌≤ℤ◌, pos}
use stock_flow.Suppliers.Payments.{record_payment, payment_row}
use stock_flow.Finance.GlEngine.{next_number}
use stock_flow.Tx.{◌>>◌, ◌>>=◌, pure, ok, bind_inv}
use stock_flow.Suppliers.Tables.{
  on_ledger, insert_payment, SupplierPayment, PurchaseInvoice, Payables,
}
use stock_flow.Finance.Tables.{supplier_payments, Ledger}
use stock_flow.Suppliers.Settled.{on_ledger_ok, IsSettled}
use stock_flow.Finance.GlEngine.Journal.{IsReconciled}
use stock_flow.Suppliers.Checks.{cover_invoice, CreateSupplierPaymentDto}
use stock_flow.Prelude.{◌∷◌, ◌++◌, [], refl, ◌≡◌, ◌∙◌, sym, subst, ap, Option, ℕ}
use stock_flow.Suppliers.Payments.Covered.{cover_invoice-IsCovered, Payable}

module _ (supplier : ℕ) (dto : CreateSupplierPaymentDto) (user company currency now : ℕ) where
  -- The row that a payment becomes, and what its recording keeps.
  pub record IsRecorded (invoice : Option PurchaseInvoice) (s t : Payables) (p : SupplierPayment)
      : Type 0 where
    pub number : ℕ
    pub row : p ≡ payment_row supplier dto user company currency now number s.next_id
    pub is_next : number ≡ number_after company supplier_payments s.ledger.sequences
    pub settled : IsSettled t
    pub payments : t.payments ≡ s.payments ++ (p ∷ [])
    pub covering : IsCovering supplier company p invoice s t
    pub same_entries : t.ledger.entries ≡ s.ledger.entries
    pub same_balances : t.ledger.balances ≡ s.ledger.balances

  pub record_payment_ok :
      (invoice : Option PurchaseInvoice) (s t : Payables) (p : SupplierPayment)
      → pos 0 ≤ℤ dto.amount
      → Payable supplier company dto.amount dto.purchase_invoice invoice s
      → record_payment supplier dto user company currency now invoice s ≡ (ok p, t)
      → IsSettled s
      → IsRecorded invoice s t p
  unfolding record_payment insert_payment
  record_payment_ok invoice s t p positive payable e (covered, balanced) =
      let row = payment_row supplier dto user company currency now in
      let (n, u, numbered, rest) =
        bind_inv (on_ledger (next_number company supplier_payments))
          (λ n v.
            (insert_payment (row n v.next_id) >>= λ payment.
            cover_invoice supplier company payment invoice >> pure payment)
              v)
          s t p e in
      let (taken, kept) = on_ledger_ok (next_number company supplier_payments) s u n numbered in
      let (x, v, written, done) =
        bind_inv (cover_invoice supplier company (row n u.next_id) invoice)
          (λ _. pure (row n u.next_id)) (with_payment (row n u.next_id) u) t p rest in
      let same : v ≡ t = ap (λ r. r.1) done in
      let covered' = subst IsCovered kept (with_ledger-IsCovered s covered u.ledger) in
      let payable' = subst (Payable supplier company dto.amount dto.purchase_invoice invoice) kept (
        ledger-Payable supplier company dto.amount dto.purchase_invoice invoice s u.ledger
          payable) in
      let paid_for =
        cover_invoice-IsCovered supplier company (row n u.next_id) u covered' dto.purchase_invoice
          invoice v x positive refl payable' written in
      let ledger : u.ledger ≡ t.ledger =
        cover_invoice-ledger supplier company (row n u.next_id) invoice
          (with_payment (row n u.next_id) u) v x written
        ∙ ap Payables.ledger same in
      let this : row n u.next_id ≡ p = cc in
      let next : u.next_id ≡ s.next_id = ap Payables.next_id (sym kept) in
      let (entries, balances) =
        next_number_keeps company supplier_payments s.ledger u.ledger n taken in
      let inserted : t.payments ≡ u.payments ++ (row n u.next_id ∷ []) =
        ap Payables.payments (sym same)
        ∙ cover_invoice-payments supplier company (row n u.next_id) invoice
            (with_payment (row n u.next_id) u) v x written in
      let covers =
        cover_invoice-IsCovering supplier company (row n u.next_id) invoice u v x written in
      let invoiced =
        books-IsCovering supplier company p invoice s t u.ledger t.ledger s.audit t.audit (
          subst (λ q. IsCovering supplier company q invoice (record s { ledger = u.ledger }) t) this
            (subst (λ w. IsCovering supplier company (row n u.next_id) invoice w t) (sym kept)
              (subst (IsCovering supplier company (row n u.next_id) invoice u) same covers))) in
      let before : u.payments ≡ s.payments = ap Payables.payments (sym kept) in
      record {
        number = n;
        row = sym this ∙ ap (row n) next;
        settled = (
          subst IsCovered same paid_for,
          subst IsReconciled ledger (
              next_number-IsReconciled company supplier_payments s.ledger u.ledger n taken
                balanced),
        );
        is_next = next_number_lem company supplier_payments s.ledger u.ledger n taken;
        payments =
            inserted
            ∙ ap (λ ps. ps ++ (row n u.next_id ∷ [])) before
            ∙ ap (λ q. s.payments ++ (q ∷ [])) this;
        covering = invoiced;
        same_entries = ap Ledger.entries (sym ledger) ∙ entries;
        same_balances = ap Ledger.balances (sym ledger) ∙ balances;
      }
