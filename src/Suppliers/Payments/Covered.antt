-- ===== src/Suppliers/Payments/Covered.antt =====
-- Payments stay covered when one is created and when one is voided
-- (backend/src/modules/suppliers/services/supplier-payments.service.ts).
use stock_flow.Suppliers.Payments.Accounts.{resolve_accounts_ok, IsAccountPair}
use stock_flow.Suppliers.Coverage.Writes.{
  with_payment-IsCovered, with_payment, with_paid-IsCovered, with_invoices-IsCovered,
  with_allocation,
}
use stock_flow.Suppliers.Allocations.{allocation_row}
use stock_flow.Suppliers.Coverage.{IsCovered}
use stock_flow.Suppliers.Payments.{prepare_payment}
use stock_flow.Prelude.Int.{int_laws, pos, leb_ℤ, ◌≤ℤ◌, ◌+ℤ◌, ℤ}
use stock_flow.Tx.{◌>>=◌, pure, bind_inv, ok}
use stock_flow.Suppliers.Checks.{
  paid_invoice, cover_invoice, resolve_accounts, AccountPair, CreateSupplierPaymentDto,
  write_invoice, is_version_of, check_invoice,
}
use stock_flow.Suppliers.Tables.{
  insert_allocation, SupplierPayment, PurchaseInvoiceStatus, sum_allocated_by_invoice,
  is_live_invoice, is_invoice_of, PurchaseInvoice, Payables,
}
use stock_flow.Prelude.{
  find_first_unique, find_first_sound, find_first-All, update_many-All, sym, suc, some-injective,
  refl, Bool, ◌∙◌, subst, ◌≡◌, ⊤, update_many, some, none, inr, inl, find_first, arith, ap,
  Option-cases, Option, ℕ,
}

-- What the checks have seen of the invoice that is paid, if one is named.
abbrev pub Payable : ℕ → ℕ → ℤ → Option ℕ → Option PurchaseInvoice → Payables → Type 0
Payable supplier company amount none none s = ⊤
Payable supplier company amount none (some i) s = ⊥
Payable supplier company amount (some id) none s = ⊥
Payable supplier company amount (some id) (some i) s =
    (find_first (is_invoice_of id company supplier) s.invoices ≡ some i)
    × (i.paid_amount +ℤ amount ≤ℤ i.grand_total)
    × (sum_allocated_by_invoice id company s.allocations +ℤ amount ≤ℤ i.grand_total)

module _ (supplier company : ℕ) (amount : ℤ) (currency : ℕ) (s : Payables) where
  pub check_invoice_ok :
      (named : Option ℕ) (invoice : Option PurchaseInvoice) (t : Payables)
      → check_invoice supplier company named amount currency s ≡ (ok invoice, t)
      → (s ≡ t) × Payable supplier company amount named invoice s
  unfolding check_invoice
  check_invoice_ok none invoice t e =
      let nothing : none ≡ invoice = cc in
      (ap (λ p. p.1) e, subst (λ o. Payable supplier company amount none o s) nothing tt)
  check_invoice_ok (some id) invoice t e =
      elim (Option-cases (find_first (is_invoice_of id company supplier) s.invoices)) [
        | inl gone ↦ absurd (ground (arith, e, gone))
        | inr (i, there) ↦
            elim (Option-cases (find_first (is_live_invoice id company) s.invoices)) [
              | inl dead ↦ absurd (ground (arith, e, there, dead))
              | inr (j, alive) ↦
                  let this : some i ≡ invoice = ground (arith, e, there, alive) in
                  (
                    ground (arith, e, there, alive),
                    subst (λ o. Payable supplier company amount (some id) o s) this
                        (there, ground (arith, e, there, alive), ground (arith, e, there, alive)),
                  )
            ]
      ]

module _ (invoice : PurchaseInvoice) (company : ℕ)
    (change : PurchaseInvoice → PurchaseInvoice) where
  pub write_invoice_ok :
      (s t : Payables) (x : ⊤)
      → write_invoice invoice company change s ≡ (ok x, t)
      → t ≡ record s {
        invoices =
            update_many (is_version_of invoice.id company invoice.row_version) change s.invoices;
      }
  unfolding write_invoice
  write_invoice_ok s t x e = ground (arith, e)

module _ (supplier : ℕ) (dto : CreateSupplierPaymentDto) (company currency : ℕ) where
  pub prepare_payment_ok :
      (s t : Payables) (found : Option PurchaseInvoice × AccountPair)
      → prepare_payment supplier dto company currency s ≡ (ok found, t)
      → (s ≡ t)
        × Payable supplier company dto.amount dto.purchase_invoice found.0 s
        × IsAccountPair dto.method dto.cash_account dto.bank_account company s found.1
  unfolding prepare_payment
  prepare_payment_ok s t found e =
      let accounts = resolve_accounts dto.method dto.cash_account dto.bank_account company in
      let (invoice, u, checked, rest) =
        bind_inv (check_invoice supplier company dto.purchase_invoice dto.amount currency)
          (λ invoice. accounts >>= λ pair. pure (invoice, pair)) s t found e in
      let (same, seen) =
        check_invoice_ok supplier company dto.amount currency s dto.purchase_invoice invoice u
          checked in
      let (pair, v, resolved, done) =
        bind_inv accounts (λ pair. pure (invoice, pair)) u t found rest in
      let (still, from) =
        resolve_accounts_ok dto.method dto.cash_account dto.bank_account company s v pair
          (subst (λ w. accounts w ≡ (ok pair, v)) (sym same) resolved) in
      let kept : invoice ≡ found.0 = cc in
      let paired : pair ≡ found.1 = cc in
      (
        still ∙ ap (λ p. p.1) done,
        subst (λ o. Payable supplier company dto.amount dto.purchase_invoice o s) kept seen,
        subst (IsAccountPair dto.method dto.cash_account dto.bank_account company s) paired from,
      )

raised : (a b : ℤ) → pos 0 ≤ℤ a → pos 0 ≤ℤ b → pos 0 ≤ℤ a +ℤ b
raised a b h k = omega int_laws

-- A guarded write of the paid amount keeps the rows covered, if the amount fits the total.
pub write_paid-IsCovered :
    (invoice : PurchaseInvoice) (company : ℕ) (changes : Bool) (status : PurchaseInvoiceStatus)
    (new_paid : ℤ) (q : PurchaseInvoice → Bool) (s t : Payables) (x : ⊤)
    → write_invoice invoice company (paid_invoice changes status new_paid) s ≡ (ok x, t)
    → find_first q s.invoices ≡ some invoice
    → pos 0 ≤ℤ new_paid
    → new_paid ≤ℤ invoice.grand_total
    → IsCovered s
    → IsCovered t
write_paid-IsCovered invoice company changes status new_paid q s t x e found positive fits h =
    let guard = is_version_of invoice.id company invoice.row_version in
    let change = paid_invoice changes status new_paid in
    let fitting =
      update_many-All PurchaseInvoice.id
        (λ i. (pos 0 ≤ℤ i.paid_amount) × (i.paid_amount ≤ℤ i.grand_total)) guard change q s.invoices
        invoice found (λ y m. ground arith) h.invoice_keys (positive, fits) h.invoice_paid in
    subst IsCovered (sym (write_invoice_ok invoice company change s t x e))
      (with_invoices-IsCovered s guard change (λ i id c. refl) (λ i. refl) (λ i. refl) fitting h)

module _ (supplier company : ℕ) (p : SupplierPayment) (s : Payables) (h : IsCovered s) where
  -- The row that the allocation names is the one that was checked.
  room_for :
      (id : ℕ) (i : PurchaseInvoice) (k : ℕ) (row : PurchaseInvoice)
      → find_first (is_invoice_of id company supplier) s.invoices ≡ some i
      → i.id ≡ id
      → i.id ≡ k
      → find_first (is_live_invoice k company) s.invoices ≡ some row
      → sum_allocated_by_invoice id company s.allocations +ℤ p.amount ≤ℤ i.grand_total
      → sum_allocated_by_invoice k company s.allocations +ℤ p.amount ≤ℤ row.grand_total
  room_for id i k row found named this live fits =
      let row_id : row.id ≡ k =
        ground (arith, find_first_sound (is_live_invoice k company) s.invoices row live) in
      let same =
        find_first_unique PurchaseInvoice.id (is_invoice_of id company supplier)
          (is_live_invoice k company) s.invoices i row h.invoice_keys found live
          (this ∙ sym row_id) in
      subst (λ r. sum_allocated_by_invoice k company s.allocations +ℤ p.amount ≤ℤ r.grand_total)
        same
        (subst (λ n. sum_allocated_by_invoice n company s.allocations +ℤ p.amount ≤ℤ i.grand_total)
          (sym named ∙ this) fits)

  -- The rest of `record_payment` after the payment row.
  pub cover_invoice-IsCovered :
      (named : Option ℕ) (invoice : Option PurchaseInvoice) (t : Payables) (x : ⊤)
      → pos 0 ≤ℤ p.amount
      → p.id ≡ s.next_id
      → Payable supplier company p.amount named invoice s
      → cover_invoice supplier company p invoice (with_payment p s) ≡ (ok x, t)
      → IsCovered t
  unfolding cover_invoice insert_allocation
  cover_invoice-IsCovered named none t x positive new payable e =
      subst IsCovered (ap (λ r. r.1) e) (with_payment-IsCovered s p h positive new)
  cover_invoice-IsCovered none (some i) t x positive new payable e = absurd payable
  cover_invoice-IsCovered (some id) (some i) t x positive new (found, paid_fits, fits) e =
      let q = is_invoice_of id company supplier in
      let a = allocation_row supplier company p.id (some i.id) p.amount (suc s.next_id) in
      let named : i.id ≡ id = ground (arith, find_first_sound q s.invoices i found) in
      let room =
        λ (k : ℕ) (row : PurchaseInvoice) (this : some i.id ≡ some k)
            (live : find_first (is_live_invoice k company) s.invoices ≡ some row).
          room_for id i k row found (named) (some-injective _ _ this) live fits in
      let covered = with_paid-IsCovered s p a h positive new refl refl room in
      let before = find_first-All _ q s.invoices i h.invoice_paid found in
      let not_negative : pos 0 ≤ℤ i.paid_amount +ℤ p.amount =
        raised i.paid_amount p.amount before.0 positive in
      write_paid-IsCovered i company (leb_ℤ i.grand_total (i.paid_amount +ℤ p.amount))
        PurchaseInvoiceStatus.paid (i.paid_amount +ℤ p.amount) q
        (with_allocation a (with_payment p s)) t x e found not_negative paid_fits covered
