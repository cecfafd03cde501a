-- ===== src/Suppliers/Payments/Created.antt =====
-- What `create` leaves: a covered payment, and a ledger with its entry
-- (backend/src/modules/suppliers/services/supplier-payments.service.ts).
use stock_flow.Suppliers.Payments.Numbered.{number_after}
use stock_flow.Suppliers.Payments.Invoiced.{IsCovering, books-IsCovering}
use stock_flow.Suppliers.Payments.Recorded.{record_payment_ok}
use stock_flow.Suppliers.Payments.Accounts.{IsAccountPair}
use stock_flow.Idempotency.Business.{checked_run_keeps}
use stock_flow.Idempotency.{Store}
use stock_flow.Prelude.Int.{◌≤ℤ◌, pos}
use stock_flow.Suppliers.Payments.{
  create_payment, check_payment, prepare_payment, post_entry, payment_note, payment_document,
  apply_create_payment, record_payment, payment_row,
}
use stock_flow.Tx.{◌>>◌, ◌>>=◌, pure, ok, bind_inv}
use stock_flow.Suppliers.Tables.{
  payment_create, payment_created, SupplierPayment, PurchaseInvoice, Payables,
}
use stock_flow.Finance.Tables.{document, JournalLine, supplier_payments}
use stock_flow.Suppliers.Settled.{post_entry_ok, entered-IsSettled, IsEntered, IsSettled}
use stock_flow.Suppliers.Checks.{resolve_supplier, AccountPair, CreateSupplierPaymentDto}
use stock_flow.Prelude.{
  ◌∷◌, ◌++◌, false, [], inr, inl, arith, Option-cases, some, none, List, ◌≡◌, ◌∙◌, sym, subst, ap,
  Option, ℕ,
}
use stock_flow.Suppliers.Payments.Covered.{prepare_payment_ok, Payable}

module _ (supplier : ℕ) (dto : CreateSupplierPaymentDto) (user company currency now : ℕ) where
  -- Accounts payable is debited with the amount, and the account that it is paid from credited.
  abbrev pub payment_lines : AccountPair → List JournalLine
  payment_lines accounts =
      record { account = accounts.payable; debit = dto.amount; credit = pos 0 }
      ∷ record { account = accounts.paid_from; debit = pos 0; credit = dto.amount }
      ∷ []

  -- A payment that was made: its row, its invoice, and its entry in a ledger that had none of it.
  pub record IsPaid (s t : Payables) (p : SupplierPayment) : Type 0 where
    pub accounts : AccountPair
    pub paid_from : IsAccountPair dto.method dto.cash_account dto.bank_account company s accounts
    pub row : p ≡ record {
      id = s.next_id;
      company = company;
      supplier = supplier;
      purchase_invoice = dto.purchase_invoice;
      payment_number = number_after company supplier_payments s.ledger.sequences;
      payment_date = elim dto.payment_date [ none ↦ now | some date ↦ date ];
      amount = dto.amount;
      method = dto.method;
      cash_account = dto.cash_account;
      bank_account = dto.bank_account;
      currency = currency;
      reference = dto.reference;
      notes = dto.notes;
      created_by = user;
      row_version = 0;
      is_deleted = false;
    }
    pub payments : t.payments ≡ s.payments ++ (p ∷ [])
    pub invoice : Option PurchaseInvoice
    pub checked : Payable supplier company dto.amount dto.purchase_invoice invoice s
    pub covering : IsCovering supplier company p invoice s t
    pub recorded : Payables
    pub same_entries : recorded.ledger.entries ≡ s.ledger.entries
    pub same_balances : recorded.ledger.balances ≡ s.ledger.balances
    pub entered :
        IsEntered company user p.payment_date
          (document payment_document p.id)
          (payment_lines accounts)
          recorded
          t

  -- A payment of a positive amount that succeeds keeps allocations covered and the ledger
  -- reconciled. It appends the row of the request to the payments, with the next id and the number
  -- after the last one of the company's payments. If it names an invoice, an active allocation of
  -- the amount to it is appended, and the amount is added to what is paid of the invoice, which is
  -- PAID if that is its total. One entry is posted to the ledger, dated as the payment and
  -- referring to it. The entry debits the amount to accounts payable, the company's live account
  -- with the code 2100, and credits it to the account that the named cash account is linked to, if
  -- the method is cash, and otherwise to the one that the named bank account is linked to.
  pub apply_create_payment_ok :
      (s t : Payables) (p : SupplierPayment)
      → pos 0 ≤ℤ dto.amount
      → apply_create_payment supplier dto user company currency now s ≡ (ok p, t)
      → IsSettled s
      → IsSettled t × IsPaid s t p
  unfolding apply_create_payment
  apply_create_payment_ok s t p positive e h =
      let post = λ (accounts : AccountPair) (payment : SupplierPayment).
        post_entry company user payment.payment_date (document payment_document payment.id)
          (payment_lines accounts) (payment_note payment_created company user payment.id) in
      let (found, u, prepared, rest) =
        bind_inv (prepare_payment supplier dto company currency)
          (λ found. record_payment supplier dto user company currency now found.0 >>= λ payment.
            post found.1 payment >> pure payment)
          s t p e in
      let (here, payable, from) =
        prepare_payment_ok supplier dto company currency s u found prepared in
      let (q, v, written, posted_it) =
        bind_inv (record_payment supplier dto user company currency now found.0)
          (λ payment. post found.1 payment >> pure payment) u t p rest in
      let recorded =
        record_payment_ok supplier dto user company currency now found.0 s v q positive payable
          (subst (λ w. record_payment supplier dto user company currency now found.0 w ≡ (ok q, v))
            (sym here) written)
          h in
      let (x, w, entered_it, done) = bind_inv (post found.1 q) (λ _. pure q) v t p posted_it in
      let entered =
        post_entry_ok company user q.payment_date (document payment_document q.id)
          (payment_lines found.1) (payment_note payment_created company user q.id) v w x
          entered_it in
      let settled =
        entered-IsSettled company user q.payment_date (document payment_document q.id)
          (payment_lines found.1) v w entered recorded.settled in
      let same : w ≡ t = ap (λ r. r.1) done in
      let this : q ≡ p = cc in
      (
        subst IsSettled same settled,
        subst (IsPaid s t) this (record {
          accounts = found.1;
          paid_from = from;
          row =
              recorded.row
              ∙ ap (λ n. payment_row supplier dto user company currency now n s.next_id)
                  recorded.is_next;
          payments =
              ap Payables.payments (sym same)
              ∙ ap Payables.payments (sym entered.kept)
              ∙ recorded.payments;
          invoice = found.0;
          checked = payable;
          covering =
              books-IsCovering supplier company q found.0 s t s.ledger v.ledger s.audit v.audit (
                subst
                  (λ z.
                    IsCovering supplier company q found.0 s
                      (record z { ledger = v.ledger; audit = v.audit }))
                  same
                  (subst
                    (λ z.
                      IsCovering supplier company q found.0 s
                        (record z { ledger = v.ledger; audit = v.audit }))
                    entered.kept recorded.covering));
          recorded = v;
          same_entries = recorded.same_entries;
          same_balances = recorded.same_balances;
          entered =
              subst
                (λ z.
                  IsEntered company user q.payment_date (document payment_document q.id)
                    (payment_lines found.1) v z)
                same entered;
        }),
      )

module _ (supplier_id : ℕ) (dto : CreateSupplierPaymentDto) (company : ℕ) (s : Payables) where
  check_payment_reads : (check_payment supplier_id dto company s).1 ≡ s
  unfolding check_payment
  check_payment_reads = elim (Option-cases (resolve_supplier supplier_id company s.suppliers)) [
    | inl lost ↦ ground (arith, lost)
    | inr (x, found) ↦ ground (arith, found)
  ]

  check_payment_positive :
      (currency : ℕ) (t : Payables)
      → check_payment supplier_id dto company s ≡ (ok currency, t)
      → pos 0 ≤ℤ dto.amount
  unfolding check_payment
  check_payment_positive currency t e =
      elim (Option-cases (resolve_supplier supplier_id company s.suppliers)) [
        | inl lost ↦ absurd (ground (arith, e, lost))
        | inr (x, found) ↦ ground (arith, e, found)
      ]

module _ (pending_body : SupplierPayment) (to_json : SupplierPayment → SupplierPayment)
    (supplier_id : ℕ) (dto : CreateSupplierPaymentDto) (user company : ℕ) (key : Option ℕ)
    (hash now : ℕ) where
  -- If allocations are covered and the ledger is reconciled, so they are after a call of `create`,
  -- whatever its outcome: the active allocations of each payment fit its amount, those of each
  -- invoice its total, as does what is paid of it, and every balance snapshot is the sum of the
  -- journal.
  pub create_payment-IsSettled :
      (s : Store Payables SupplierPayment)
      → IsSettled s.business
      → IsSettled
          (create_payment pending_body to_json supplier_id dto user company key hash now
            s).1.business
  unfolding create_payment
  create_payment-IsSettled s h =
      checked_run_keeps pending_body to_json IsSettled (check_payment supplier_id dto company)
        (λ currency. apply_create_payment supplier_id dto user company currency now) key company
        payment_create hash now 201 s (check_payment_reads supplier_id dto company s.business)
        (λ currency p t checked ran.
          (apply_create_payment_ok supplier_id dto user company currency now s.business t p
            (check_payment_positive supplier_id dto company s.business currency s.business checked)
            ran h).0)
        h
