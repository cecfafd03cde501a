-- ===== src/Suppliers/Coverage/Writes.antt =====
-- Each write of the payables keeps the allocations covered, under the checks that precede it.
use stock_flow.Finance.Tables.{Ledger}
use stock_flow.SalesRefund.Allocation.{positive}
use stock_flow.SalesRefund.Allocation.Room.{room}
use stock_flow.Suppliers.Tables.{
  PaymentAudit, is_some_of, sum_allocated_by_payment, sum_allocated_by_invoice, sum_allocated,
  is_of_payment, is_of_invoice, is_live_payment, is_live_invoice, SupplierPaymentAllocation,
  SupplierPayment, PurchaseInvoice, Payables,
}
use stock_flow.Prelude.Int.{int_laws, ◌≤ℤ◌, ◌+ℤ◌, ℤ, pos, +ℤ-zero}
use stock_flow.Prelude.{
  find_first_sound, ⊤, update_many-IsKeyed, none, find_first-All, ap, Option, ◌∙◌, update_many, sym,
  subst, find_first-update_kept, find_first-append_inv, false, List, All-map, All, ◌≡◌, ◌∷◌, ◌<◌,
  ◌++◌, true, suc, some, inr, inl, find_first, arith, [], Bool-cases, Bool, All-append, ℕ,
}
use stock_flow.Suppliers.Coverage.{sum_allocated_none, sum_allocated-append, IsCovered}

-- What an allocation adds to a sum is its amount, or nothing.
added_fits :
    (q : SupplierPaymentAllocation → Bool) (s : Payables) (a : SupplierPaymentAllocation)
    (limit : ℤ)
    → sum_allocated q s.allocations ≤ℤ limit
    → (q a ≡ true → sum_allocated q s.allocations +ℤ a.amount ≤ℤ limit)
    → sum_allocated q (s.allocations ++ (a ∷ [])) ≤ℤ limit
added_fits q s a limit before room =
    rw (sum_allocated-append q s.allocations a) (elim (Bool-cases (q a)) [
      | inl t ↦ rw t (room t)
      | inr n ↦ rw (n, +ℤ-zero (sum_allocated q s.allocations)) before
    ])

some_of : (id : ℕ) (o : Option ℕ) → is_some_of id o ≡ true → o ≡ some id
some_of id none e = absurd (cc)
some_of id (some x) e = ap some (ground arith)

of_invoice :
    (id company : ℕ) (a : SupplierPaymentAllocation)
    → is_of_invoice id company a ≡ true
    → (a.purchase_invoice ≡ some id) × (a.company ≡ company)
of_invoice id company a e =
    let (named, same) : (is_some_of id a.purchase_invoice ≡ true) × (a.company ≡ company) =
      ground arith in
    (some_of id a.purchase_invoice named, same)

abbrev pub with_payment : SupplierPayment → Payables → Payables
with_payment p s = record s { payments = s.payments ++ (p ∷ []); next_id = suc s.next_id }

abbrev pub with_allocation : SupplierPaymentAllocation → Payables → Payables
with_allocation a s = record s { allocations = s.allocations ++ (a ∷ []); next_id = suc s.next_id }

module _ (s : Payables) (a : SupplierPaymentAllocation) (h : IsCovered s) where
  -- An allocation for which payment and invoice have room.
  pub with_allocation-IsCovered :
      pos 0 ≤ℤ a.amount
      → a.payment < s.next_id
      → ((p : SupplierPayment)
          → find_first (is_live_payment a.payment a.company) s.payments ≡ some p
          → sum_allocated_by_payment a.payment a.company s.allocations +ℤ a.amount ≤ℤ p.amount)
      → ((invoice : ℕ) (i : PurchaseInvoice)
          → a.purchase_invoice ≡ some invoice
          → find_first (is_live_invoice invoice a.company) s.invoices ≡ some i
          → sum_allocated_by_invoice invoice a.company s.allocations +ℤ a.amount ≤ℤ i.grand_total)
      → IsCovered (with_allocation a s)
  with_allocation-IsCovered positive old payment_room invoice_room = record {
    payments_fit = λ id company p e.
        added_fits (is_of_payment id company) s a p.amount (h.payments_fit id company p e) (λ mine.
          let same : ◌≡◌ {A = ℕ × ℕ} (a.payment, a.company) (id, company) = ground arith in
          subst
            (λ (k : ℕ × ℕ).
              find_first (is_live_payment k.0 k.1) s.payments ≡ some p
              → sum_allocated_by_payment k.0 k.1 s.allocations +ℤ a.amount ≤ℤ p.amount)
            same (payment_room p) e);
    invoices_fit = λ id company i e.
        added_fits (is_of_invoice id company) s a i.grand_total (h.invoices_fit id company i e)
          (λ mine.
            let (named, same) = of_invoice id company a mine in
            subst
              (λ k.
                find_first (is_live_invoice id k) s.invoices ≡ some i
                → sum_allocated_by_invoice id k s.allocations +ℤ a.amount ≤ℤ i.grand_total)
              same (invoice_room id i named) e);
    payment_ids = All-map _ _ s.payments (λ p k. omega arith) h.payment_ids;
    payment_amounts = h.payment_amounts;
    allocation_ids =
        All-append _ s.allocations (a ∷ [])
          (All-map _ _ s.allocations (λ b k. omega arith) h.allocation_ids) (omega arith, tt);
    allocation_amounts = All-append _ s.allocations (a ∷ []) h.allocation_amounts (positive, tt);
    invoice_keys = h.invoice_keys;
    invoice_paid = h.invoice_paid;
  }

-- A payment with a new id, to which nothing is allocated yet.
module _ (s : Payables) (p : SupplierPayment) (h : IsCovered s) where
  unallocated :
      (id company : ℕ) (xs : List SupplierPaymentAllocation)
      → All (λ a. a.payment < id) xs
      → All (λ a. is_of_payment id company a ≡ false) xs
  unallocated id company xs old = All-map _ _ xs (λ a k. ground arith) old

  pub with_payment-IsCovered : pos 0 ≤ℤ p.amount → p.id ≡ s.next_id → IsCovered (with_payment p s)
  with_payment-IsCovered positive new = record {
    payments_fit = λ id company q e.
        elim (find_first-append_inv (is_live_payment id company) s.payments p q e) [
          | inl old ↦ h.payments_fit id company q old
          | inr (mine, same) ↦
              let this : p.id ≡ id = ground arith in
              let nothing : sum_allocated_by_payment id company s.allocations ≡ pos 0 =
                sum_allocated_none (is_of_payment id company) s.allocations (
                  subst (λ k. All (λ a. is_of_payment k company a ≡ false) s.allocations)
                    (sym new ∙ this)
                    (unallocated s.next_id company s.allocations h.allocation_ids)) in
              rw (nothing, ← same) positive
        ];
    invoices_fit = h.invoices_fit;
    payment_ids =
        All-append _ s.payments (p ∷ []) (All-map _ _ s.payments (λ q k. omega arith) h.payment_ids)
          (omega arith, tt);
    payment_amounts = All-append _ s.payments (p ∷ []) h.payment_amounts (positive, tt);
    allocation_ids = All-map _ _ s.allocations (λ b k. omega arith) h.allocation_ids;
    allocation_amounts = h.allocation_amounts;
    invoice_keys = h.invoice_keys;
    invoice_paid = h.invoice_paid;
  }

module _ (s : Payables) (g : PurchaseInvoice → Bool) (f : PurchaseInvoice → PurchaseInvoice) where
  -- A change of invoices that keeps their keys and totals.
  pub with_invoices-IsCovered :
      ((i : PurchaseInvoice) (id company : ℕ)
        → is_live_invoice id company (f i) ≡ is_live_invoice id company i)
      → ((i : PurchaseInvoice) → (f i).id ≡ i.id)
      → ((i : PurchaseInvoice) → (f i).grand_total ≡ i.grand_total)
      → All
          (λ i. (pos 0 ≤ℤ i.paid_amount) × (i.paid_amount ≤ℤ i.grand_total))
          (update_many g f s.invoices)
      → IsCovered s
      → IsCovered (record s { invoices = update_many g f s.invoices })
  with_invoices-IsCovered keep same_id same_total fits h = record {
    payments_fit = h.payments_fit;
    invoices_fit = λ id company i e.
        let (j, found, same) =
          find_first-update_kept g (is_live_invoice id company) f PurchaseInvoice.grand_total
            s.invoices i (λ j. keep j id company) same_total e in
        rw same (h.invoices_fit id company j found);
    payment_ids = h.payment_ids;
    payment_amounts = h.payment_amounts;
    allocation_ids = h.allocation_ids;
    allocation_amounts = h.allocation_amounts;
    invoice_keys =
        update_many-IsKeyed PurchaseInvoice.id (λ _. ⊤) g f s.invoices same_id h.invoice_keys;
    invoice_paid = fits;
  }

module _ (s : Payables) (h : IsCovered s) where
  pub with_ledger-IsCovered : (l : Ledger) → IsCovered (record s { ledger = l })
  with_ledger-IsCovered l = record {
    payments_fit = h.payments_fit;
    invoices_fit = h.invoices_fit;
    payment_ids = h.payment_ids;
    payment_amounts = h.payment_amounts;
    allocation_ids = h.allocation_ids;
    allocation_amounts = h.allocation_amounts;
    invoice_keys = h.invoice_keys;
    invoice_paid = h.invoice_paid;
  }

  pub with_audit-IsCovered : (notes : List PaymentAudit) → IsCovered (record s { audit = notes })
  with_audit-IsCovered notes = record {
    payments_fit = h.payments_fit;
    invoices_fit = h.invoices_fit;
    payment_ids = h.payment_ids;
    payment_amounts = h.payment_amounts;
    allocation_ids = h.allocation_ids;
    allocation_amounts = h.allocation_amounts;
    invoice_keys = h.invoice_keys;
    invoice_paid = h.invoice_paid;
  }

exact_fit : (x : ℤ) → pos 0 +ℤ x ≤ℤ x
exact_fit x = omega int_laws

-- A payment that is inserted together with its allocation to an invoice that has room for it.
module _ (s : Payables) (p : SupplierPayment) (a : SupplierPaymentAllocation)
    (h : IsCovered s) where
  pub with_paid-IsCovered :
      pos 0 ≤ℤ p.amount
      → p.id ≡ s.next_id
      → a.amount ≡ p.amount
      → a.payment ≡ p.id
      → ((invoice : ℕ) (i : PurchaseInvoice)
          → a.purchase_invoice ≡ some invoice
          → find_first (is_live_invoice invoice a.company) s.invoices ≡ some i
          → sum_allocated_by_invoice invoice a.company s.allocations +ℤ a.amount ≤ℤ i.grand_total)
      → IsCovered (with_allocation a (with_payment p s))
  with_paid-IsCovered positive new whole mine room =
      with_allocation-IsCovered (with_payment p s) a (with_payment-IsCovered s p h positive new)
        (rw whole positive) (rw (mine, new) (omega arith))
        (λ q e.
          elim (find_first-append_inv (is_live_payment a.payment a.company) s.payments p q e) [
            | inl old ↦
                let named : q.id ≡ a.payment = ground (
                  arith,
                  find_first_sound (is_live_payment a.payment a.company) s.payments q old,
                ) in
                let older =
                  find_first-All _ (is_live_payment a.payment a.company) s.payments q h.payment_ids
                    old in
                absurd (omega arith)
            | inr (_, same) ↦
                let nothing : sum_allocated_by_payment a.payment a.company s.allocations ≡ pos 0 =
                  sum_allocated_none (is_of_payment a.payment a.company) s.allocations (
                    subst (λ k. All (λ b. is_of_payment k a.company b ≡ false) s.allocations)
                      (sym new ∙ sym mine)
                      (unallocated s p h s.next_id a.company s.allocations h.allocation_ids)) in
                rw (nothing, whole, ← same) (exact_fit p.amount)
          ])
        room
