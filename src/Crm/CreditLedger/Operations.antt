-- ===== src/Crm/CreditLedger/Operations.antt =====
-- What each operation of the credit ledger does to the balances when it succeeds.
use stock_flow.SalesRefund.Allocation.{RefundPaymentAllocation}
use stock_flow.Inventory.Reservation.Outcome.{refused}
use stock_flow.Prelude.Int.{◌≤ℤ◌, ◌-ℤ◌, ◌+ℤ◌, ℤ, pos, max_ℤ, ltb_ℤ, int_laws}
use stock_flow.Tx.{
  ◌>>◌, ◌>>=◌, transaction_inv, transaction, throw_if, pure, or_throw, ok, not_found, bind_inv,
  bad_request, Tx, Exception,
}
use stock_flow.Crm.CreditLedger.{
  CreditTransaction, spent, spend, sale_payment, refund_allocation, manual_adjustment, legacy_fact,
  issued, issue_refund_credit, issue_legacy_refund_credit, issue_each, is_zero_ℤ, is_customer,
  is_credit_allocation, insert_fact, full_refund, facts_of, fact_row, credit_audit, credit_amount,
  create_manual_adjustment, create_issued, balance, audit_issued, audit_adjusted, atomic_spend,
  adjusted, adjust_within, adjust_credit, abs_of, SaleCredit, Direction, Customer, CreditReference,
  CreditPayment, CreditFacts, CreditBook,
}
use stock_flow.Crm.CreditLedger.Changes.{
  zero_of, same_balances, owner_of, idle-Change, moves_after, insert_fact_ok, guard_ok, fact_moves,
  covers, balances_of, MovesBy, Covered, Change,
}
use stock_flow.Prelude.{
  ◌≡◌, ◌∷◌, ◌∙◌, ◌==◌, ◌+◌, true, sym, subst, some, refl, none, length, inr, inl, if◌then◌else◌,
  find_many, find_first, arith, ap, [], Option-cases, Option, List, Bool-cases, ℕ,
}

atomic_spend_ok :
    (f : CreditFacts) (sale_id : ℕ) (amount : ℤ) (s t : CreditBook) (r : CreditTransaction)
    → atomic_spend f sale_id amount s ≡ (ok (some r), t)
    → MovesBy f (pos 0 -ℤ amount) s t × Covered f (pos 0 -ℤ amount) s
unfolding atomic_spend
atomic_spend_ok f sale_id amount s t r e =
    let row = fact_row f spent amount sale_payment sale_id s.next_id in
    let (enough, inserted) = guard_ok row s t r e in
    let (_, appended) = insert_fact_ok row s t r inserted in
    (
      fact_moves f spent amount sale_payment sale_id s.next_id s t appended,
      inr (covers (balances_of s f.company f.customer f.currency) amount enough),
    )

spend_some :
    (f : SaleCredit) (customer : Option ℕ) (sale_id : ℕ) (amount : ℤ) (s t : CreditBook)
    (o : Option CreditTransaction)
    → (or_throw customer bad_request >>= λ c.
          atomic_spend (facts_of f c) sale_id amount >>= λ inserted.
          or_throw inserted bad_request >>= λ row. pure (some row))
        s
      ≡ (ok o, t)
    → Change (owner_of f customer) (pos 0 -ℤ amount) s t
spend_some f none sale_id amount s t o e = absurd (cc)
spend_some f (some c) sale_id amount s t o e =
    let (found, u, spent_it, rest) =
      bind_inv (atomic_spend (facts_of f c) sale_id amount)
        (λ inserted. or_throw inserted bad_request >>= λ row. pure (some row)) s t o e in
    elim (Option-cases found) [
      | inl none_there ↦ let bad = rw none_there at rest in absurd (cc)
      | inr (r, there) ↦
          let good : u ≡ t = ap (λ p. p.1) (rw there at rest) in
          atomic_spend_ok (facts_of f c) sale_id amount s t r (rw (there, good) at spent_it)
    ]

pub spend_ok :
    (f : SaleCredit) (sale_id : ℕ) (payments : List CreditPayment) (s t : CreditBook)
    (o : Option CreditTransaction)
    → spend f sale_id payments s ≡ (ok o, t)
    → Change (owner_of f f.customer) (pos 0 -ℤ credit_amount payments (pos 0)) s t
unfolding spend ◌-ℤ◌
spend_ok f sale_id payments s t o e =
    elim (Bool-cases (is_zero_ℤ (credit_amount payments (pos 0)))) [
      | inl z ↦
          let nothing : credit_amount payments (pos 0) ≡ pos 0 = zero_of _ z in
          let same : s ≡ t = ap (λ p. p.1) (rw z at e) in
          rw (nothing, ← same) (idle-Change (owner_of f f.customer) s)
      | inr n ↦ spend_some f f.customer sale_id (credit_amount payments (pos 0)) s t o (rw n at e)
    ]

pos_sum : (a b : ℕ) → pos a +ℤ pos b ≡ pos (a + b)
pos_sum a b = omega int_laws

create_issued_ok :
    (f : CreditFacts) (amount : ℤ) (rt : CreditReference) (reference : ℕ) (s t : CreditBook)
    (r : CreditTransaction)
    → create_issued f amount rt reference s ≡ (ok r, t)
    → MovesBy f amount s t
unfolding create_issued
create_issued_ok f amount rt reference s t r e =
    let (_, appended) = insert_fact_ok (fact_row f issued amount rt reference s.next_id) s t r e in
    fact_moves f issued amount rt reference s.next_id s t appended

-- What a list of allocations is worth.
abbrev pub sum_allocations : List (ℕ × RefundPaymentAllocation) → ℕ
sum_allocations [] = 0
sum_allocations ((_, a) ∷ xs) = a.amount + sum_allocations xs

issue_each_ok :
    (f : CreditFacts) (xs : List (ℕ × RefundPaymentAllocation)) (s t : CreditBook)
    (rows : List CreditTransaction)
    → issue_each f xs s ≡ (ok rows, t)
    → MovesBy f (pos (sum_allocations xs)) s t
unfolding issue_each
issue_each_ok f [] s t rows e = subst (MovesBy f (pos 0) s) (ap (λ p. p.1) e) (same_balances f s)
issue_each_ok f ((id, a) ∷ xs) s t rows e =
    let (r, u, one, rest) =
      bind_inv (create_issued f (pos a.amount) refund_allocation id)
        (λ row. issue_each f xs >>= λ rows'. pure (row ∷ rows')) s t rows e in
    let (rows', v, later, done) =
      bind_inv (issue_each f xs) (λ rows'. pure (r ∷ rows')) u t rows rest in
    let first = create_issued_ok f (pos a.amount) refund_allocation id s u r one in
    let second = issue_each_ok f xs u v rows' later in
    let same : v ≡ t = ap (λ p. p.1) done in
    subst (λ d. MovesBy f d s t) (pos_sum a.amount (sum_allocations xs))
      (moves_after f (pos a.amount) (pos (sum_allocations xs)) s u t first
        (subst (MovesBy f (pos (sum_allocations xs)) u) same second))

empty_sum :
    (xs : List (ℕ × RefundPaymentAllocation)) → (length xs == 0) ≡ true → sum_allocations xs ≡ 0
empty_sum [] h = refl
empty_sum (x ∷ xs) h = absurd (ground arith)

issue_some :
    (f : SaleCredit) (customer : Option ℕ) (xs : List (ℕ × RefundPaymentAllocation))
    (s t : CreditBook) (rows : List CreditTransaction)
    → (or_throw customer bad_request >>= λ c. issue_each (facts_of f c) xs) s ≡ (ok rows, t)
    → Change (owner_of f customer) (pos (sum_allocations xs)) s t
issue_some f none xs s t rows e = absurd (cc)
issue_some f (some c) xs s t rows e =
    (issue_each_ok (facts_of f c) xs s t rows e, inl (omega arith))

pub issue_refund_credit_ok :
    (f : SaleCredit) (xs : List (ℕ × RefundPaymentAllocation)) (s t : CreditBook)
    (rows : List CreditTransaction)
    → issue_refund_credit f xs s ≡ (ok rows, t)
    → Change
        (owner_of f f.customer)
        (pos (
          sum_allocations
            (find_many (λ (x : ℕ × RefundPaymentAllocation). is_credit_allocation x.1) xs)))
        s
        t
unfolding issue_refund_credit
issue_refund_credit_ok f xs s t rows e =
    let eligible = find_many (λ (x : ℕ × RefundPaymentAllocation). is_credit_allocation x.1) xs in
    elim (Bool-cases (length eligible == 0)) [
      | inl z ↦
          let same : s ≡ t = ap (λ p. p.1) (rw z at e) in
          rw (empty_sum eligible z, ← same) (idle-Change (owner_of f f.customer) s)
      | inr n ↦ issue_some f f.customer eligible s t rows (rw n at e)
    ]

legacy_some :
    (f : SaleCredit) (customer : Option ℕ) (refund : ℕ) (amount : ℤ) (s t : CreditBook)
    (o : Option CreditTransaction)
    → pos 0 ≤ℤ amount
    → legacy_fact f refund amount customer s ≡ (ok o, t)
    → Change (owner_of f customer) amount s t
legacy_some f none refund amount s t o h e =
    λ company customer currency. ap (λ p. balances_of p.1 company customer currency) (sym e)
legacy_some f (some c) refund amount s t o h e =
    let (r, u, created_it, done) =
      bind_inv (create_issued (facts_of f c) amount full_refund refund) (λ row. pure (some row)) s t
        o e in
    let same : u ≡ t = ap (λ p. p.1) done in
    (
      subst (MovesBy (facts_of f c) amount s) same
          (create_issued_ok (facts_of f c) amount full_refund refund s u r created_it),
      inl h,
    )

pub issue_legacy_refund_credit_ok :
    (f : SaleCredit) (refund : ℕ) (payments : List CreditPayment) (s t : CreditBook)
    (o : Option CreditTransaction)
    → issue_legacy_refund_credit f refund payments s ≡ (ok o, t)
    → Change (owner_of f f.customer) (max_ℤ (pos 0) (credit_amount payments (pos 0))) s t
unfolding issue_legacy_refund_credit
issue_legacy_refund_credit_ok f refund payments s t o e =
    let amount = credit_amount payments (pos 0) in
    elim (Bool-cases (ltb_ℤ (pos 0) amount)) [
      | inl y ↦ rw y (legacy_some f f.customer refund amount s t o (ground arith) (rw y at e))
      | inr n ↦
          let same : s ≡ t = ap (λ p. p.1) (rw n at e) in
          rw (n, ← same) (idle-Change (owner_of f f.customer) s)
    ]

write_off_ok :
    (f : CreditFacts) (amount : ℤ) (s t : CreditBook) (r : CreditTransaction)
    → create_manual_adjustment f adjusted amount s ≡ (ok (some r), t)
    → MovesBy f (pos 0 -ℤ amount) s t × Covered f (pos 0 -ℤ amount) s
unfolding create_manual_adjustment
write_off_ok f amount s t r e =
    let row = fact_row f adjusted amount manual_adjustment s.next_id s.next_id in
    let (enough, inserted) = guard_ok row s t r e in
    let (_, appended) = insert_fact_ok row s t r inserted in
    (
      fact_moves f adjusted amount manual_adjustment s.next_id s.next_id s t appended,
      inr (covers (balances_of s f.company f.customer f.currency) amount enough),
    )

top_up_ok :
    (f : CreditFacts) (amount : ℤ) (s t : CreditBook) (r : CreditTransaction)
    → create_manual_adjustment f issued amount s ≡ (ok (some r), t)
    → MovesBy f amount s t
unfolding create_manual_adjustment
top_up_ok f amount s t r e =
    let row = fact_row f issued amount manual_adjustment s.next_id s.next_id in
    let (q, u, done, same) = bind_inv (insert_fact row) (λ q. pure (some q)) s t (some r) e in
    let (_, appended) = insert_fact_ok row s u q done in
    let same_book : u ≡ t = ap (λ p. p.1) same in
    fact_moves f issued amount manual_adjustment s.next_id s.next_id s t (rw (← same_book) appended)

twice_neg : (a : ℤ) → pos 0 -ℤ (pos 0 -ℤ a) ≡ a
twice_neg a = omega int_laws

adjustment_ok :
    (f : CreditFacts) (amount : ℤ) (s t : CreditBook) (r : CreditTransaction)
    → create_manual_adjustment f
        (if ltb_ℤ amount (pos 0) then adjusted else issued)
        (abs_of amount)
        s
      ≡ (ok (some r), t)
    → MovesBy f amount s t × Covered f amount s
adjustment_ok f amount s t r e = elim (Bool-cases (ltb_ℤ amount (pos 0))) [
  | inl y ↦
      let written = write_off_ok f (pos 0 -ℤ amount) s t r (rw y at e) in
      subst (λ d. MovesBy f d s t × Covered f d s) (twice_neg amount) written
  | inr n ↦
      let raised : MovesBy f amount s t = top_up_ok f amount s t r (rw n at e) in
      (raised, inl (ground arith))
]

or_throw_state :
    (o : Option Customer) (x : Exception) (s t : CreditBook) (c : Customer)
    → or_throw o x s ≡ (ok c, t)
    → s ≡ t
or_throw_state none x s t c e = absurd (cc)
or_throw_state (some d) x s t c e = ap (λ p. p.1) e

adjust_within_ok :
    (f : CreditFacts) (amount : ℤ) (s t : CreditBook) (r : CreditTransaction)
    → adjust_within amount f s ≡ (ok r, t)
    → MovesBy f amount s t × Covered f amount s
unfolding adjust_within
adjust_within_ok f amount s t r e =
    let d : Direction = if ltb_ℤ amount (pos 0) then adjusted else issued in
    let note = λ (row : CreditTransaction). credit_audit (record {
      company = f.company;
      user = f.created_by;
      entity_id = row.id;
      action = if ltb_ℤ amount (pos 0) then audit_adjusted else audit_issued;
      amount = abs_of amount;
    }) in
    let finish : Option CreditTransaction → Tx CreditBook CreditTransaction =
      λ inserted. or_throw inserted bad_request >>= λ row. note row >> pure row in
    let (_, u, known, rest) =
      bind_inv (or_throw (find_first (is_customer f.customer f.company) s.customers) not_found)
        (λ _. create_manual_adjustment f d (abs_of amount) >>= finish) s t r e in
    let here : s ≡ u = or_throw_state _ not_found s u _ known in
    let (inserted, v, written, done) =
      bind_inv (create_manual_adjustment f d (abs_of amount)) finish u t r rest in
    elim (Option-cases inserted) [
      | inl refused ↦ let bad = rw refused at done in absurd (cc)
      | inr (row, there) ↦
          let kept : v.transactions ≡ t.transactions =
            ap (λ p. p.1.transactions) (rw there at done) in
          let (moved, covered) = adjustment_ok f amount u v row (rw (← there) written) in
          (
            λ company customer currency.
                ap (balance company customer currency) (sym kept)
                ∙ subst (λ w. MovesBy f amount w v) (sym here) moved company customer currency,
            subst (Covered f amount) (sym here) covered,
          )
    ]

pub adjust_credit_ok :
    (f : CreditFacts) (amount : ℤ) (s t : CreditBook) (r : CreditTransaction)
    → adjust_credit amount f s ≡ (ok r, t)
    → MovesBy f amount s t × Covered f amount s
unfolding adjust_credit
adjust_credit_ok f amount s t r e =
    let (_, u, passed, rest) =
      bind_inv (throw_if (is_zero_ℤ amount) bad_request) (λ _. transaction (adjust_within amount f))
        s t r e in
    let here : s ≡ u = ap (λ p. p.1) passed in
    adjust_within_ok f amount s t r (transaction_inv (adjust_within amount f) s t r (rw here rest))
