-- ===== src/Crm/CreditLedger/Outcome.antt =====
-- When a sale can be paid with a customer's credit.
use stock_flow.Inventory.Reservation.Outcome.{refused}
use stock_flow.Crm.CreditLedger.Changes.{insert_fact_ok, guard_ok}
use stock_flow.Prelude.Int.{pos, ltb_ℤ}
use stock_flow.Tx.{
  bind_inv, Tx, ◌>>=◌, pure, or_throw, bind_ok, bind_err, unique_violation, ok, err, bad_request,
}
use stock_flow.Crm.CreditLedger.{
  spent, spend, same_fact, sale_payment, is_zero_ℤ, insert_with_balance_guard, insert_fact,
  facts_of, fact_row, credit_amount, balance, atomic_spend, SaleCredit, CreditTransaction,
  CreditPayment, CreditBook,
}
use stock_flow.Prelude.{
  sym, ap, Option-cases, ◌∙◌, none, inr, inl, Option, Bool-cases, ◌≡◌, ◌∷◌, ◌++◌, true, suc, some,
  refl, if◌then◌else◌, false, arith, any_where, [], List, Bool, ℕ,
}

any_where-append_one :
    {A : Type 0} (p : A → Bool) (xs : List A) (x : A)
    → p x ≡ true
    → any_where p (xs ++ (x ∷ [])) ≡ true
any_where-append_one p [] x h = rw h refl
any_where-append_one p (y ∷ xs) x h = ground (arith, any_where-append_one p xs x)

module _ (row : CreditTransaction) (s : CreditBook) where
  abbrev pub with_row : CreditBook
  with_row = record s { transactions = s.transactions ++ (row ∷ []); next_id = suc s.next_id }

  abbrev short : Bool
  short = ltb_ℤ (balance row.company row.customer row.currency s.transactions) row.amount

  guard_refuses : short ≡ true → insert_with_balance_guard row s ≡ (ok none, s)
  unfolding insert_with_balance_guard
  guard_refuses h = rw h refl

  insert_fresh :
      any_where (same_fact row) s.transactions ≡ false → insert_fact row s ≡ (ok row, with_row)
  unfolding insert_fact
  insert_fresh h = rw h refl

  insert_repeated :
      any_where (same_fact row) s.transactions ≡ true
      → insert_fact row s ≡ (err unique_violation, s)
  unfolding insert_fact
  insert_repeated h = rw h refl

  guard_passes :
      short ≡ false
      → any_where (same_fact row) s.transactions ≡ false
      → insert_with_balance_guard row s ≡ (ok (some row), with_row)
  unfolding insert_with_balance_guard
  guard_passes h fresh =
      rw h (bind_ok (insert_fact row) (λ r. pure (some r)) s with_row row (insert_fresh fresh))

  guard_repeats :
      short ≡ false
      → any_where (same_fact row) s.transactions ≡ true
      → insert_with_balance_guard row s ≡ (err unique_violation, s)
  unfolding insert_with_balance_guard
  guard_repeats h taken =
      rw h (
        bind_err (insert_fact row) (λ r. pure (some r)) s s unique_violation
          (insert_repeated taken))

-- The rest of `spend` after the guarded insert.
abbrev finish : Option CreditTransaction → Tx CreditBook (Option CreditTransaction)
finish inserted = or_throw inserted bad_request >>= λ row. pure (some row)

module _ (f : SaleCredit) (customer sale_id : ℕ) (payments : List CreditPayment)
    (s : CreditBook) where
  -- The row that pays the sale.
  abbrev pub spent_row : CreditTransaction
  spent_row =
      fact_row (facts_of f customer) spent (credit_amount payments (pos 0)) sale_payment sale_id
        s.next_id

  abbrev unpayable : Bool
  unpayable =
      ltb_ℤ (balance f.company customer f.currency s.transactions) (credit_amount payments (pos 0))

  spend_step :
      f.customer ≡ some customer
      → is_zero_ℤ (credit_amount payments (pos 0)) ≡ false
      → spend f sale_id payments s ≡ (insert_with_balance_guard spent_row >>= finish) s
  unfolding spend atomic_spend
  spend_step named real = rw (real, named) refl

  spend_refused :
      f.customer ≡ some customer
      → is_zero_ℤ (credit_amount payments (pos 0)) ≡ false
      → unpayable ≡ true
      → spend f sale_id payments s ≡ (err bad_request, s)
  spend_refused named real h =
      spend_step named real
      ∙ bind_ok (insert_with_balance_guard spent_row) finish s s none (guard_refuses spent_row s h)

  spend_repeated :
      f.customer ≡ some customer
      → is_zero_ℤ (credit_amount payments (pos 0)) ≡ false
      → unpayable ≡ false
      → any_where (same_fact spent_row) s.transactions ≡ true
      → spend f sale_id payments s ≡ (err unique_violation, s)
  spend_repeated named real h taken =
      spend_step named real
      ∙ bind_err (insert_with_balance_guard spent_row) finish s s unique_violation
          (guard_repeats spent_row s h taken)

  -- A sale with a customer and a credit amount other than zero, which has no payment by credit in its currency yet, is paid
  -- exactly when the amount is at most the customer's balance: one row with the amount is then added
  -- to the ledger. Otherwise the spend is refused as a bad request, and nothing is added.
  pub spend_lem :
      f.customer ≡ some customer
      → is_zero_ℤ (credit_amount payments (pos 0)) ≡ false
      → any_where (same_fact spent_row) s.transactions ≡ false
      → spend f sale_id payments s ≡ (
          if ltb_ℤ
            (balance f.company customer f.currency s.transactions)
            (credit_amount payments (pos 0))
          then (err bad_request, s)
          else (
            ok (some spent_row),
            record s { transactions = s.transactions ++ (spent_row ∷ []); next_id = suc s.next_id },
          ))
  spend_lem named real fresh = elim (Bool-cases unpayable) [
    | inl y ↦ rw y (spend_refused named real y)
    | inr n ↦ rw n (
        spend_step named real
        ∙ bind_ok (insert_with_balance_guard spent_row) finish s (with_row spent_row s)
            (some spent_row) (guard_passes spent_row s n fresh))
  ]

module _ (f : SaleCredit) (customer sale_id : ℕ) (payments again : List CreditPayment) where
  appended :
      (s t : CreditBook) (r : CreditTransaction)
      → f.customer ≡ some customer
      → spend f sale_id payments s ≡ (ok (some r), t)
      → is_zero_ℤ (credit_amount payments (pos 0)) ≡ false
      → t.transactions ≡ s.transactions ++ (spent_row f customer sale_id payments s ∷ [])
  appended s t r named paid real =
      let row = spent_row f customer sale_id payments s in
      let (inserted, u, guarded, rest) =
        bind_inv (insert_with_balance_guard row) finish s t (some r)
          (sym (spend_step f customer sale_id payments s named real) ∙ paid) in
      elim (Option-cases inserted) [
        | inl refused ↦ let bad = rw refused at rest in absurd (cc)
        | inr (q, there) ↦
            let same : u ≡ t = ap (λ p. p.1) (rw there at rest) in
            let (_, added) = guard_ok row s u q (rw there at guarded) in
            let (_, rows) = insert_fact_ok row s u q added in
            ap CreditBook.transactions (sym same) ∙ rows
      ]

  paid_real :
      (s t : CreditBook) (r : CreditTransaction)
      → spend f sale_id payments s ≡ (ok (some r), t)
      → is_zero_ℤ (credit_amount payments (pos 0)) ≡ false
  unfolding spend
  paid_real s t r paid = elim (Bool-cases (is_zero_ℤ (credit_amount payments (pos 0)))) [
    | inl y ↦ let bad = rw y at paid in absurd (cc)
    | inr n ↦ n
  ]

  same_sale :
      (s t : CreditBook)
      → same_fact (spent_row f customer sale_id again t) (spent_row f customer sale_id payments s)
        ≡ true
  same_sale s t = ground arith

  -- A sale is paid by credit once. After a spend for it that added a row, every further one, with
  -- credit payments that do not add up to zero, adds nothing: it is refused as a bad request if the
  -- balance that is left does not cover it, and as a duplicate if it does.
  pub spend_once :
      (s t : CreditBook) (r : CreditTransaction)
      → f.customer ≡ some customer
      → spend f sale_id payments s ≡ (ok (some r), t)
      → is_zero_ℤ (credit_amount again (pos 0)) ≡ false
      → spend f sale_id again t ≡ (
        (if ltb_ℤ
              (balance f.company customer f.currency t.transactions)
              (credit_amount again (pos 0))
            then err bad_request
            else err unique_violation),
        t,
      )
  spend_once s t r named paid real =
      let first = paid_real s t r paid in
      let rows = appended s t r named paid first in
      let taken : any_where (same_fact (spent_row f customer sale_id again t)) t.transactions
          ≡ true =
        rw rows (
          any_where-append_one (same_fact (spent_row f customer sale_id again t)) s.transactions
            (spent_row f customer sale_id payments s) (same_sale s t)) in
      elim (Bool-cases (unpayable f customer sale_id again t)) [
        | inl y ↦ rw y (spend_refused f customer sale_id again t named real y)
        | inr n ↦ rw n (spend_repeated f customer sale_id again t named real n taken)
      ]
