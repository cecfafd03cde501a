-- ===== src/Suppliers/Allocations/Covered.antt =====
-- Allocations stay covered when an allocation is created.
use stock_flow.Idempotency.Business.{checked_run_keeps}
use stock_flow.Idempotency.{Store}
use stock_flow.Suppliers.Coverage.Writes.{with_allocation-IsCovered, with_allocation}
use stock_flow.SalesRefund.Allocation.Room.{room}
use stock_flow.SalesRefund.Allocation.{positive}
use stock_flow.Suppliers.Coverage.{IsCovered}
use stock_flow.Prelude.Int.{pos, ◌≤ℤ◌, ◌+ℤ◌, ℤ}
use stock_flow.Suppliers.Allocations.{
  check_allocation, create_allocation, apply_create_allocation, allocation_row, check_room,
}
use stock_flow.Tx.{bind_inv, ok}
use stock_flow.Suppliers.Tables.{
  is_supplier_payment, is_invoice_of, allocation_create, insert_allocation,
  SupplierPaymentAllocation, Payables, sum_allocated_by_payment, sum_allocated_by_invoice,
  is_live_payment, is_live_invoice, SupplierPayment, PurchaseInvoice,
}
use stock_flow.Prelude.{
  Option, ◌∙◌, some-injective, ◌<◌, sym, subst, find_first_sound, find_first-All, ap, inr, inl,
  arith, Option-cases, ◌≡◌, ⊤, some, find_first, ℕ,
}

-- What the checks have seen: both rows are there and have room for the amount.
record HasRoom (company payment_id invoice_id : ℕ) (amount : ℤ) (s : Payables) : Type 0 where
  payment : SupplierPayment
  payment_found : find_first (is_live_payment payment_id company) s.payments ≡ some payment
  payment_room :
      sum_allocated_by_payment payment_id company s.allocations +ℤ amount ≤ℤ payment.amount
  invoice : PurchaseInvoice
  invoice_found : find_first (is_live_invoice invoice_id company) s.invoices ≡ some invoice
  invoice_room :
      sum_allocated_by_invoice invoice_id company s.allocations +ℤ amount ≤ℤ invoice.grand_total

module _ (company payment_id invoice_id : ℕ) (amount : ℤ) (s : Payables) where
  check_room_ok :
      (a : ⊤) (t : Payables)
      → check_room company payment_id invoice_id amount s ≡ (ok a, t)
      → (s ≡ t) × HasRoom company payment_id invoice_id amount s
  unfolding check_room
  check_room_ok a t e =
      elim (Option-cases (find_first (is_live_invoice invoice_id company) s.invoices)) [
        | inl none_there ↦ absurd (ground (arith, e, none_there))
        | inr (i, there) ↦
            elim (Option-cases (find_first (is_live_payment payment_id company) s.payments)) [
              | inl none_found ↦ absurd (ground (arith, e, there, none_found))
              | inr (p, found) ↦ (
                ground (arith, e, there, found),
                record {
                  payment = p;
                  payment_found = found;
                  payment_room = ground (arith, e, there, found);
                  invoice = i;
                  invoice_found = there;
                  invoice_room = ground (arith, e, there, found);
                },
              )
            ]
      ]

module _ (supplier company payment_id invoice_id : ℕ) (amount : ℤ) where
  pub apply_create_allocation-IsCovered :
      (s t : Payables) (a : SupplierPaymentAllocation)
      → pos 0 ≤ℤ amount
      → apply_create_allocation supplier company payment_id invoice_id amount s ≡ (ok a, t)
      → IsCovered s
      → IsCovered t
  unfolding apply_create_allocation insert_allocation
  apply_create_allocation-IsCovered s t a positive e h =
      let row =
        λ (id : ℕ). allocation_row supplier company payment_id (some invoice_id) amount id in
      let (x, u, checked, rest) =
        bind_inv (check_room company payment_id invoice_id amount)
          (λ _ v. insert_allocation (row v.next_id) v) s t a e in
      let (same, room) = check_room_ok company payment_id invoice_id amount s x u checked in
      let written : with_allocation (row u.next_id) u ≡ t = ap (λ p. p.1) rest in
      let known : room.payment.id ≡ payment_id = ground (
        arith,
        find_first_sound (is_live_payment payment_id company) s.payments room.payment
            room.payment_found,
      ) in
      let old : room.payment.id < s.next_id =
        find_first-All _ (is_live_payment payment_id company) s.payments room.payment h.payment_ids
          room.payment_found in
      subst IsCovered (subst (λ v. with_allocation (row v.next_id) v ≡ t) (sym same) written) (
        with_allocation-IsCovered s (row s.next_id) h positive (rw known at old)
          (λ p found.
            subst
              (λ q. sum_allocated_by_payment payment_id company s.allocations +ℤ amount ≤ℤ q.amount)
              (some-injective _ _ (sym room.payment_found ∙ found)) room.payment_room)
          (λ invoice i named.
            subst
              (λ k.
                find_first (is_live_invoice k company) s.invoices ≡ some i
                → sum_allocated_by_invoice k company s.allocations +ℤ amount ≤ℤ i.grand_total)
              (some-injective _ _ named)
              (λ found.
                subst
                  (λ j.
                    sum_allocated_by_invoice invoice_id company s.allocations +ℤ amount
                    ≤ℤ j.grand_total)
                  (some-injective _ _ (sym room.invoice_found ∙ found)) room.invoice_room)))

module _ (supplier company payment_id invoice_id : ℕ) (amount : ℤ) (s : Payables) where
  check_allocation_reads : (check_allocation supplier company payment_id invoice_id amount s).1 ≡ s
  unfolding check_allocation
  check_allocation_reads =
      elim (Option-cases
        (find_first (is_supplier_payment payment_id supplier company) s.payments)) [
          | inl lost ↦ ground (arith, lost)
          | inr (p, found) ↦
              elim (Option-cases
                (find_first (is_invoice_of invoice_id company supplier) s.invoices)) [
                  | inl gone ↦ ground (arith, found, gone)
                  | inr (i, there) ↦ ground (arith, found, there)
                ]
        ]

  check_allocation_positive :
      (x : ⊤) (t : Payables)
      → check_allocation supplier company payment_id invoice_id amount s ≡ (ok x, t)
      → pos 0 ≤ℤ amount
  unfolding check_allocation
  check_allocation_positive x t e = ground (arith, e)

module _ (pending_body : SupplierPaymentAllocation)
    (to_json : SupplierPaymentAllocation → SupplierPaymentAllocation)
    (supplier company payment_id invoice_id : ℕ) (amount : ℤ) (key : Option ℕ) (hash now : ℕ) where
  -- If the active allocations of each payment fit its amount and those of each invoice its total, and
  -- no amount is negative, so it is after a call of `create`, whatever its outcome.
  pub create_allocation-IsCovered :
      (s : Store Payables SupplierPaymentAllocation)
      → IsCovered s.business
      → IsCovered
          (create_allocation pending_body to_json supplier company payment_id invoice_id amount key
            hash now s).1.business
  unfolding create_allocation
  create_allocation-IsCovered s h =
      checked_run_keeps pending_body to_json IsCovered
        (check_allocation supplier company payment_id invoice_id amount)
        (λ _. apply_create_allocation supplier company payment_id invoice_id amount) key company
        allocation_create hash now 201 s
        (check_allocation_reads supplier company payment_id invoice_id amount s.business)
        (λ x a t checked ran.
          apply_create_allocation-IsCovered supplier company payment_id invoice_id amount s.business
            t a
            (check_allocation_positive supplier company payment_id invoice_id amount s.business x
              s.business checked)
            ran h)
        h
