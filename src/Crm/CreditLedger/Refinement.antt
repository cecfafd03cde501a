-- ===== src/Crm/CreditLedger/Refinement.antt =====
-- The credit ledger implements a map of balances that never fall below zero.
use stock_flow.SalesRefund.Allocation.{positive, RefundPaymentAllocation}
use stock_flow.Prelude.Int.{◌+ℤ◌, int_laws, ◌≤ℤ◌, ◌-ℤ◌, ℤ, pos, max_ℤ}
use stock_flow.Finance.GlEngine.Balances.{amount}
use stock_flow.Crm.CreditLedger.Operations.{
  sum_allocations, spend_ok, issue_refund_credit_ok, issue_legacy_refund_credit_ok,
  adjust_credit_ok,
}
use stock_flow.Tx.{
  transaction_failed, Result, Exception, ◌>>◌, transaction_inv, transaction, run-cases, pure, ok,
  err, bind_inv, Tx,
}
use stock_flow.Crm.CreditLedger.{
  spend, issue_refund_credit, issue_legacy_refund_credit, is_credit_allocation, credit_amount,
  adjust_credit, SaleCredit, CreditPayment, CreditFacts, CreditBook,
}
use stock_flow.Crm.CreditLedger.Changes.{owner_of, balances_of, Change}
use stock_flow.Prelude.{
  ◌==◌, ◌&&◌, sym, arith, Bool-cases, ◌≡◌, ◌∷◌, ⊤, subst, some, none, inr, inl, find_many, ap, [],
  Option, List, ℕ,
}

-- What a customer's credit is used for, each in a transaction of its document.
pub data CreditCommand : Type 0 where
  spend_for : SaleCredit → ℕ → List CreditPayment → CreditCommand
  issue_for : SaleCredit → List (ℕ × RefundPaymentAllocation) → CreditCommand
  issue_legacy_for : SaleCredit → ℕ → List CreditPayment → CreditCommand
  adjust_by : ℤ → CreditFacts → CreditCommand

abbrev pub run_command : CreditCommand → Tx CreditBook ⊤
run_command (spend_for f sale_id payments) = transaction (spend f sale_id payments >> pure tt)
run_command (issue_for f xs) = transaction (issue_refund_credit f xs >> pure tt)
run_command (issue_legacy_for f refund payments) =
    transaction (issue_legacy_refund_credit f refund payments >> pure tt)
run_command (adjust_by amount f) = transaction (adjust_credit amount f >> pure tt)

-- Whose balance a command moves, and by how much.
abbrev pub command_owner : CreditCommand → Option CreditFacts
command_owner (spend_for f sale_id payments) = owner_of f f.customer
command_owner (issue_for f xs) = owner_of f f.customer
command_owner (issue_legacy_for f refund payments) = owner_of f f.customer
command_owner (adjust_by amount f) = some f

abbrev pub command_effect : CreditCommand → ℤ
command_effect (spend_for f sale_id payments) = pos 0 -ℤ credit_amount payments (pos 0)
command_effect (issue_for f xs) =
    pos (
      sum_allocations
        (find_many (λ (x : ℕ × RefundPaymentAllocation). is_credit_allocation x.1) xs))
command_effect (issue_legacy_for f refund payments) = max_ℤ (pos 0) (credit_amount payments (pos 0))
command_effect (adjust_by amount f) = amount

then_done :
    {A : Type 0} (m : Tx CreditBook A) (P : CreditBook → Type 0) (s t : CreditBook)
    → ((a : A) (u : CreditBook) → m s ≡ (ok a, u) → P u)
    → transaction (m >> pure tt) s ≡ (ok tt, t)
    → P t
then_done m P s t good e =
    let (a, u, ran, done) =
      bind_inv m (λ _. pure tt) s t tt (transaction_inv (m >> pure tt) s t tt e) in
    subst P (ap (λ p. p.1) done) (good a u ran)

run_command_ok :
    (c : CreditCommand) (s t : CreditBook)
    → run_command c s ≡ (ok tt, t)
    → Change (command_owner c) (command_effect c) s t
run_command_ok (spend_for f sale_id payments) s t e =
    then_done (spend f sale_id payments) _ s t (λ o u. spend_ok f sale_id payments s u o) e
run_command_ok (issue_for f xs) s t e =
    then_done (issue_refund_credit f xs) _ s t (λ o u. issue_refund_credit_ok f xs s u o) e
run_command_ok (issue_legacy_for f refund payments) s t e =
    then_done (issue_legacy_refund_credit f refund payments) _ s t
      (λ o u. issue_legacy_refund_credit_ok f refund payments s u o) e
run_command_ok (adjust_by amount f) s t e =
    then_done (adjust_credit amount f) _ s t (λ r u. adjust_credit_ok f amount s u r) e

-- A command that succeeds makes its change, and one that fails none.
abbrev pub Refines : CreditCommand → CreditBook → Result ⊤ × CreditBook → Type 0
Refines c s (ok _, t) = Change (command_owner c) (command_effect c) s t
Refines c s (err _, t) = t ≡ s

run_command_failed :
    (c : CreditCommand) (s t : CreditBook) (x : Exception) → run_command c s ≡ (err x, t) → t ≡ s
run_command_failed (spend_for f sale_id payments) s t x e = transaction_failed _ s t x e
run_command_failed (issue_for f xs) s t x e = transaction_failed _ s t x e
run_command_failed (issue_legacy_for f refund payments) s t x e = transaction_failed _ s t x e
run_command_failed (adjust_by amount f) s t x e = transaction_failed _ s t x e

-- Each use of a customer's credit is, on the map of balances, a change of one balance: a sale takes
-- the credit payments off the balance of its customer, a refund adds the credit allocations, a legacy
-- refund the credit payments if they are positive, and a manual adjustment its amount. A balance that
-- falls does not fall below zero, all other balances stay, no balance changes without a customer, and
-- a use that fails leaves the tables as they were.
pub run_command-Refines : (c : CreditCommand) (s : CreditBook) → Refines c s (run_command c s)
run_command-Refines c s = elim (run-cases (run_command c) s) [
  | inl (a, t, e) ↦ subst (Refines c s) (sym e) (run_command_ok c s t e)
  | inr (x, t, e) ↦ subst (Refines c s) (sym e) (run_command_failed c s t x e)
]

abbrev pub IsSolvent : CreditBook → Type 0
IsSolvent s = (company customer currency : ℕ) → pos 0 ≤ℤ balances_of s company customer currency

Change-IsSolvent :
    (o : Option CreditFacts) (d : ℤ) (s t : CreditBook) → Change o d s t → IsSolvent s → IsSolvent t
Change-IsSolvent none d s t change h company customer currency =
    rw (change company customer currency) (h company customer currency)
Change-IsSolvent (some f) d s t (moved, covered) h company customer currency =
    let before = h company customer currency in
    let after = moved company customer currency in
    elim (Bool-cases (f.company == company && f.customer == customer && f.currency == currency)) [
      | inl y ↦
          let mine : (f.company ≡ company) × (f.customer ≡ customer) × (f.currency ≡ currency) =
            ground arith in
          let raised : balances_of t company customer currency
              ≡ balances_of s company customer currency +ℤ d =
            rw y at after in
          rw raised (elim covered [
            | inl positive ↦ omega int_laws
            | inr enough ↦ rw (mine.0, mine.1, mine.2) at enough
          ])
      | inr n ↦ rw (rw n at after) before
    ]

settled :
    (c : CreditCommand) (s : CreditBook) (p : Result ⊤ × CreditBook)
    → Refines c s p
    → IsSolvent s
    → IsSolvent p.1
settled c s (ok _, t) change h = Change-IsSolvent (command_owner c) (command_effect c) s t change h
settled c s (err _, t) same h = subst IsSolvent (sym same) h

abbrev pub run_commands : List CreditCommand → CreditBook → CreditBook
run_commands [] s = s
run_commands (c ∷ cs) s = run_commands cs (run_command c s).1

-- No sequence of uses drives a balance below zero.
pub run_commands-IsSolvent :
    (cs : List CreditCommand) (s : CreditBook) → IsSolvent s → IsSolvent (run_commands cs s)
run_commands-IsSolvent [] s h = h
run_commands-IsSolvent (c ∷ cs) s h =
    run_commands-IsSolvent cs (run_command c s).1
      (settled c s (run_command c s) (run_command-Refines c s) h)
