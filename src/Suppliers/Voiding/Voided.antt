-- ===== src/Suppliers/Voiding/Voided.antt =====
-- The whole of `void`: its invariant, and what it takes back
-- (backend/src/modules/suppliers/services/supplier-payments.service.ts).
use stock_flow.Suppliers.Payments.Accounts.{resolve_accounts_ok, IsAccountPair}
use stock_flow.Suppliers.Coverage.{sum_deleted}
use stock_flow.Prelude.Int.{◌≤ℤ◌, pos}
use stock_flow.Suppliers.Payments.{two_lines, post_entry, payment_reversal_document, payment_note}
use stock_flow.Finance.Tables.{document}
use stock_flow.Finance.GlEngine.Journal.{IsReconciled}
use stock_flow.Suppliers.Settled.{post_entry_ok, entered-IsSettled, IsSettled, IsEntered}
use stock_flow.Suppliers.Voiding.{
  withdraw_payment, void_payment, apply_void, prepare_void, invoice_to_restore,
}
use stock_flow.Tx.{
  err, transaction_inv, transaction, or_throw_found, or_throw, not_found, ◌>>=◌, pure, ok, bind_inv,
}
use stock_flow.Suppliers.Voiding.Covered.{
  withdraw_payment_ok, IsWithdrawn, invoice_to_restore_ok, Restorable,
}
use stock_flow.Suppliers.Tables.{
  sum_allocated_by_payment, is_of_payment, delete_payment, delete_allocation, payment_voided,
  find_payment, is_supplier_payment, SupplierPayment, PurchaseInvoice, Payables,
}
use stock_flow.Suppliers.Checks.{resolve_accounts, AccountPair}
use stock_flow.Prelude.{
  ◌∷◌, [], update_many, none, find_first_sound, find_first-update_none, arith, ⊤, sym,
  find_first-All, ◌≡◌, ◌∙◌, subst, some, find_first, ap, Option, ℕ,
}

module _ (payment_id supplier company : ℕ) (s : Payables) where
  record IsPrepared (found : SupplierPayment × Option PurchaseInvoice × AccountPair) : Type 0 where
    payment_found :
        find_first (is_supplier_payment payment_id supplier company) s.payments ≡ some found.0
    restorable : Restorable company found.0.purchase_invoice found.1 s
    accounts_of :
        IsAccountPair found.0.method found.0.cash_account found.0.bank_account company s found.2

  prepare_void_ok :
      (t : Payables) (found : SupplierPayment × Option PurchaseInvoice × AccountPair)
      → prepare_void payment_id supplier company s ≡ (ok found, t)
      → (s ≡ t) × IsPrepared found
  unfolding prepare_void find_payment
  prepare_void_ok t found e =
      let q = is_supplier_payment payment_id supplier company in
      let accounts =
        λ (p : SupplierPayment). resolve_accounts p.method p.cash_account p.bank_account company in
      let (p, w, known, rest) =
        bind_inv (or_throw (find_first q s.payments) not_found)
          (λ p. invoice_to_restore company p.purchase_invoice >>= λ invoice.
            accounts p >>= λ pair. pure (p, invoice, pair))
          s t found e in
      let (here, start) = or_throw_found (find_first q s.payments) not_found s w p known in
      let (invoice, u, read, rest') =
        bind_inv (invoice_to_restore company p.purchase_invoice)
          (λ invoice. accounts p >>= λ pair. pure (p, invoice, pair)) w t found rest in
      let (same, seen) = invoice_to_restore_ok company s p.purchase_invoice invoice u (
        subst (λ v. invoice_to_restore company p.purchase_invoice v ≡ (ok invoice, u)) (sym start)
          read) in
      let (pair, v, resolved, done) =
        bind_inv (accounts p) (λ pair. pure (p, invoice, pair)) u t found rest' in
      let (still, from) =
        resolve_accounts_ok p.method p.cash_account p.bank_account company s v pair
          (subst (λ w. accounts p w ≡ (ok pair, v)) (sym same) resolved) in
      let this : ◌≡◌ {A = SupplierPayment × Option PurchaseInvoice × AccountPair} (p, invoice, pair)
          found =
        cc in
      (
        still ∙ ap (λ r. r.1) done,
        subst IsPrepared this
            (record { payment_found = here; restorable = seen; accounts_of = from }),
      )

-- What a successful `void` has done: payment and allocations are withdrawn, the invoice is restored,
-- and an entry is posted that debits the amount to the account that it was paid from and credits it
-- to accounts payable.
pub record IsVoided (p : SupplierPayment) (invoice : Option PurchaseInvoice)
    (supplier company user now : ℕ) (accounts : AccountPair) (s t : Payables) : Type 0 where
  pub paid_from : IsAccountPair p.method p.cash_account p.bank_account company s accounts
  pub read : Restorable company p.purchase_invoice invoice s
  pub between : Payables
  pub withdrawn : IsWithdrawn p invoice supplier company s between
  pub entered :
      IsEntered company user now
        (document payment_reversal_document p.id)
        (record { account = accounts.paid_from; debit = p.amount; credit = pos 0 }
          ∷ record { account = accounts.payable; debit = pos 0; credit = p.amount }
          ∷ [])
        between
        t

module _ (p : SupplierPayment) (invoice : Option PurchaseInvoice) (accounts : AccountPair)
    (supplier company user now : ℕ) where
  apply_void_ok :
      (s t : Payables) (x : ⊤)
      → Restorable company p.purchase_invoice invoice s
      → IsAccountPair p.method p.cash_account p.bank_account company s accounts
      → pos 0 ≤ℤ p.amount
      → apply_void p invoice accounts supplier company user now s ≡ (ok x, t)
      → IsSettled s
      → IsSettled t × IsVoided p invoice supplier company user now accounts s t
  unfolding apply_void
  apply_void_ok s t x found from h e (covered, balanced) =
      let lines = two_lines accounts.paid_from accounts.payable p.amount in
      let reference = document payment_reversal_document p.id in
      let note = payment_note payment_voided company user p.id in
      let (y, u, taken, rest) =
        bind_inv (withdraw_payment p invoice supplier company)
          (λ _. post_entry company user now reference lines note) s t x e in
      let (covered', withdrawn) =
        withdraw_payment_ok p invoice supplier company s u y found h taken covered in
      let entered = post_entry_ok company user now reference lines note u t x rest in
      (
        entered-IsSettled company user now reference lines u t entered
            (covered', subst IsReconciled (sym withdrawn.ledger) balanced),
        record {
          paid_from = from;
          read = found;
          between = u;
          withdrawn = withdrawn;
          entered = entered;
        },
      )

module _ (payment_id supplier company user now : ℕ) where
  -- A `void` that succeeds keeps allocations covered and the ledger reconciled. It withdraws the
  -- payment with its allocations and takes its amount off what is paid of the invoice that the
  -- payment names, if any, which is APPROVED again if what is left is less than its total. It posts
  -- one entry, dated now, for the amount of the payment. The entry debits the account that the
  -- payment came from: the one that its cash account is linked to, if its method is cash, and
  -- otherwise the one that its bank account is linked to. It credits accounts payable, the
  -- company's live account with the code 2100.
  pub void_payment_ok :
      (s t : Payables) (x : ⊤)
      → void_payment payment_id supplier company user now s ≡ (ok x, t)
      → IsSettled s
      → IsSettled t
        × (p : SupplierPayment) × (invoice : Option PurchaseInvoice) × (accounts : AccountPair)
        × (find_first (is_supplier_payment payment_id supplier company) s.payments ≡ some p)
        × IsVoided p invoice supplier company user now accounts s t
  unfolding void_payment
  void_payment_ok s t x e h =
      let (found, u, read, rest) =
        bind_inv (prepare_void payment_id supplier company)
          (λ found. transaction (apply_void found.0 found.1 found.2 supplier company user now)) s t
          x e in
      let (same, prepared) = prepare_void_ok payment_id supplier company s u found read in
      let ran =
        transaction_inv (apply_void found.0 found.1 found.2 supplier company user now) s t x (
          subst
            (λ w.
              transaction (apply_void found.0 found.1 found.2 supplier company user now) w
              ≡ (ok x, t))
            (sym same) rest) in
      let positive' =
        find_first-All _ (is_supplier_payment payment_id supplier company) s.payments found.0
          h.0.payment_amounts prepared.payment_found in
      let (settled, voided_it) =
        apply_void_ok found.0 found.1 found.2 supplier company user now s t x prepared.restorable
          prepared.accounts_of positive' ran h in
      (settled, found.0, found.1, found.2, prepared.payment_found, voided_it)

  gone :
      (s : Payables)
      → find_first (is_supplier_payment payment_id supplier company) s.payments ≡ none
      → void_payment payment_id supplier company user now s ≡ (err not_found, s)
  unfolding void_payment prepare_void find_payment
  gone s none_there = ground (arith, none_there)

  -- If allocations are covered and the ledger is reconciled, a payment is voided once: after a `void`
  -- that succeeds nothing is allocated to the payment, and a second `void` answers not found and
  -- changes nothing.
  pub void_once :
      (s t : Payables) (x : ⊤)
      → IsSettled s
      → void_payment payment_id supplier company user now s ≡ (ok x, t)
      → (sum_allocated_by_payment payment_id company t.allocations ≡ pos 0)
        × (void_payment payment_id supplier company user now t ≡ (err not_found, t))
  void_once s t x h e =
      let (_, p, invoice, accounts, found, done) = void_payment_ok s t x e h in
      let q = is_supplier_payment payment_id supplier company in
      let this : p.id ≡ payment_id = ground (arith, find_first_sound q s.payments p found) in
      let payments : t.payments ≡ update_many q delete_payment s.payments =
        ap Payables.payments (sym done.entered.kept)
        ∙ subst
            (λ k.
              done.between.payments
              ≡ update_many (is_supplier_payment k supplier company) delete_payment s.payments)
            this done.withdrawn.payments in
      let allocations : t.allocations
          ≡ update_many (is_of_payment payment_id company) delete_allocation s.allocations =
        ap Payables.allocations (sym done.entered.kept)
        ∙ subst
            (λ k.
              done.between.allocations
              ≡ update_many (is_of_payment k company) delete_allocation s.allocations)
            this done.withdrawn.allocations in
      (
        ap (sum_allocated_by_payment payment_id company) allocations
            ∙ sum_deleted payment_id company s.allocations,
        gone t (
            ap (find_first q) payments
            ∙ find_first-update_none q delete_payment s.payments (λ y m. ground arith)),
      )
