-- ===== src/Suppliers/Coverage.antt =====
-- Payments and invoices are not allocated more than their amounts: the invariant of the payables, and
-- what the writes of the tables do to it.
pub mod Writes
pub mod Withdrawal
use stock_flow.Prelude.Int.{◌≤ℤ◌, ◌+ℤ◌, pos, int_laws}
use stock_flow.Suppliers.Tables.{
  sum_allocated_by_payment, sum_allocated_by_invoice, sum_allocated, is_of_payment, is_live_payment,
  is_live_invoice, delete_allocation, SupplierPaymentAllocation, SupplierPayment, PurchaseInvoice,
  Payables,
}
use stock_flow.Prelude.{
  IsKeyed, ◌≡◌, ◌∷◌, ◌<◌, ◌++◌, update_many, true, some, refl, inr, inl, if◌then◌else◌, find_first,
  false, arith, [], List, Bool-cases, Bool, All, ℕ,
}

module _ (q : SupplierPaymentAllocation → Bool) where
  pub sum_allocated-append :
      (xs : List SupplierPaymentAllocation) (a : SupplierPaymentAllocation)
      → sum_allocated q (xs ++ (a ∷ [])) ≡ sum_allocated q xs +ℤ (if q a then a.amount else pos 0)
  sum_allocated-append [] a = elim (Bool-cases (q a)) [
    | inl t ↦ rw t (omega int_laws)
    | inr n ↦ rw n (omega int_laws)
  ]
  sum_allocated-append (x ∷ xs) a =
      let rest = sum_allocated-append xs a in
      elim (Bool-cases (q x)) [ inl t ↦ rw (t, rest) (omega int_laws) | inr n ↦ rw (n, rest) refl ]

  pub sum_allocated_none :
      (xs : List SupplierPaymentAllocation) → All (λ a. q a ≡ false) xs → sum_allocated q xs ≡ pos 0
  sum_allocated_none [] h = refl
  sum_allocated_none (x ∷ xs) (h, hs) = rw h (sum_allocated_none xs hs)

  pub sum_allocated_nonneg :
      (xs : List SupplierPaymentAllocation)
      → All (λ a. pos 0 ≤ℤ a.amount) xs
      → pos 0 ≤ℤ sum_allocated q xs
  sum_allocated_nonneg [] h = omega arith
  sum_allocated_nonneg (x ∷ xs) (h, hs) =
      let rest = sum_allocated_nonneg xs hs in
      elim (Bool-cases (q x)) [ inl t ↦ rw t (omega int_laws) | inr n ↦ rw n rest ]

module _ (payment company : ℕ) where
  -- Deleted allocations do not count.
  pub sum_deleted :
      (xs : List SupplierPaymentAllocation)
      → sum_allocated_by_payment payment company
          (update_many (is_of_payment payment company) delete_allocation xs)
        ≡ pos 0
  sum_deleted [] = refl
  sum_deleted (x ∷ xs) =
      let rest = sum_deleted xs in
      elim (Bool-cases (is_of_payment payment company x)) [
        | inl t ↦
            let gone : is_of_payment payment company (delete_allocation x) ≡ false = ground arith in
            rw (t, gone) rest
        | inr n ↦ rw (n, n) rest
      ]

  pub sum_other :
      (q : SupplierPaymentAllocation → Bool) (xs : List SupplierPaymentAllocation)
      → ((a : SupplierPaymentAllocation) → is_of_payment payment company a ≡ true → q a ≡ false)
      → ((a : SupplierPaymentAllocation) → q (delete_allocation a) ≡ false)
      → sum_allocated q (update_many (is_of_payment payment company) delete_allocation xs)
        ≡ sum_allocated q xs
  sum_other q [] other gone = refl
  sum_other q (x ∷ xs) other gone =
      let rest = sum_other q xs other gone in
      elim (Bool-cases (is_of_payment payment company x)) [
        | inl t ↦ rw (t, gone x, other x t) rest
        | inr n ↦ rw (n, rest) refl
      ]

  pub sum_shrinks :
      (q : SupplierPaymentAllocation → Bool) (xs : List SupplierPaymentAllocation)
      → ((a : SupplierPaymentAllocation) → q (delete_allocation a) ≡ false)
      → All (λ a. pos 0 ≤ℤ a.amount) xs
      → sum_allocated q (update_many (is_of_payment payment company) delete_allocation xs)
        ≤ℤ sum_allocated q xs
  sum_shrinks q [] gone h = omega arith
  sum_shrinks q (x ∷ xs) gone (h, hs) =
      let rest = sum_shrinks q xs gone hs in
      elim (Bool-cases (is_of_payment payment company x)) [
        | inl t ↦ elim (Bool-cases (q x)) [
          | inl m ↦ rw (t, gone x, m) (omega int_laws)
          | inr m ↦ rw (t, gone x, m) rest
        ]
        | inr n ↦ elim (Bool-cases (q x)) [
          | inl m ↦ rw (n, m) (omega int_laws)
          | inr m ↦ rw (n, m) rest
        ]
      ]

-- The active allocations of a payment that is not voided fit its amount, those of an invoice its
-- total, and so does what is paid of an invoice; amounts are not negative, and new ids are new.
pub record IsCovered (s : Payables) : Type 0 where
  pub payments_fit :
      (id company : ℕ) (p : SupplierPayment)
      → find_first (is_live_payment id company) s.payments ≡ some p
      → sum_allocated_by_payment id company s.allocations ≤ℤ p.amount
  pub invoices_fit :
      (id company : ℕ) (i : PurchaseInvoice)
      → find_first (is_live_invoice id company) s.invoices ≡ some i
      → sum_allocated_by_invoice id company s.allocations ≤ℤ i.grand_total
  pub payment_ids : All (λ p. p.id < s.next_id) s.payments
  pub payment_amounts : All (λ p. pos 0 ≤ℤ p.amount) s.payments
  pub allocation_ids : All (λ a. a.payment < s.next_id) s.allocations
  pub allocation_amounts : All (λ a. pos 0 ≤ℤ a.amount) s.allocations
  pub invoice_keys : IsKeyed PurchaseInvoice.id s.invoices
  pub invoice_paid :
      All (λ i. (pos 0 ≤ℤ i.paid_amount) × (i.paid_amount ≤ℤ i.grand_total)) s.invoices
