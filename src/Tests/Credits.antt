-- ===== src/Tests/Credits.antt =====
-- The credit ledger at a concrete book: the customer 7 of the company 3 has 50 in the currency 1.
use stock_flow.Prelude.Int.{◌+ℤ◌, int_laws, ◌-ℤ◌, negsuc, pos}
use stock_flow.Tx.{transaction, err, bad_request, ok}
use stock_flow.SalesRefund.Allocation.{PaymentMethod}
use stock_flow.Prelude.{inr, inl, arith, Bool-cases, ◌≡◌, ◌∷◌, some, refl, [], List}
use stock_flow.Crm.CreditLedger.{
  issue_legacy_refund_credit, is_fact_of, insert_with_balance_guard, insert_fact,
  create_manual_adjustment, create_issued, atomic_spend, adjust_within, get_balances, balance,
  spend, manual_adjustment, issued, fact_row, adjust_credit, SaleCredit, CreditTransaction,
  CreditPayment, CreditFacts, CreditBook,
}
use stock_flow.Crm.CreditLedger.Outcome.{spend_lem, spend_once, spent_row, with_row}
use stock_flow.Crm.CreditLedger.Balances.{get_balances_lem}
use stock_flow.Crm.CreditLedger.Refinement.{
  run_command-Refines, run_commands-IsSolvent, run_command, run_commands, Refines, IsSolvent,
  CreditCommand, spend_for, adjust_by, issue_legacy_for,
}

abbrev facts : CreditFacts
facts = record { company = 3; customer = 7; currency = 1; created_by = 2 }

abbrev document : SaleCredit
document = record { company = 3; customer = some 7; currency = 1; created_by = 2 }

abbrev payments : List CreditPayment
payments =
    record { method = PaymentMethod.cash; amount = pos 10 }
    ∷ record { method = PaymentMethod.gift_card; amount = pos 20 }
    ∷ record { method = PaymentMethod.store_credit; amount = pos 15 }
    ∷ []

abbrev empty_book : CreditBook
empty_book = record {
  customers = record { id = 7; company = 3 } ∷ [];
  transactions = [];
  audit = [];
  next_id = 1;
}

abbrev topped_up : CreditTransaction
topped_up = fact_row facts issued (pos 50) manual_adjustment 1 1

abbrev book : CreditBook
book = record {
  customers = record { id = 7; company = 3 } ∷ [];
  transactions = topped_up ∷ [];
  audit = [];
  next_id = 2;
}

topped_book : (adjust_credit (pos 50) facts empty_book).1.transactions ≡ topped_up ∷ []
unfolding adjust_credit transaction adjust_within create_manual_adjustment insert_fact
topped_book = refl

spend_example :
    (spend document 9 payments book).0 ≡ ok (some (spent_row document 7 9 payments book))
unfolding spend ◌+ℤ◌ atomic_spend insert_with_balance_guard insert_fact
spend_example = refl

spend_lem_example : spend document 9 payments book ≡ (
  ok (some (spent_row document 7 9 payments book)),
  with_row (spent_row document 7 9 payments book) book,
)
unfolding ◌+ℤ◌
spend_lem_example = spend_lem document 7 9 payments book refl refl refl

-- Nothing is left for a second payment of the sale.
spend_once_example :
    spend document 9 payments (with_row (spent_row document 7 9 payments book) book)
    ≡ (err bad_request, with_row (spent_row document 7 9 payments book) book)
unfolding ◌+ℤ◌ ◌-ℤ◌
spend_once_example =
    spend_once document 7 9 payments payments book
      (with_row (spent_row document 7 9 payments book) book) (spent_row document 7 9 payments book)
      refl spend_lem_example refl

abbrev uses : List CreditCommand
uses =
    spend_for document 9 payments
    ∷ adjust_by (negsuc 29) facts
    ∷ issue_legacy_for document 4 payments
    ∷ []

uses_end : balance 3 7 1 (run_commands uses book).transactions ≡ pos 50
unfolding transaction adjust_credit adjust_within create_manual_adjustment insert_fact spend
    atomic_spend insert_with_balance_guard issue_legacy_refund_credit create_issued ◌+ℤ◌ ◌-ℤ◌
uses_end = refl

book-IsSolvent : IsSolvent book
book-IsSolvent company customer currency =
    elim (Bool-cases (is_fact_of company customer currency topped_up)) [
      | inl y ↦ rw y (omega int_laws)
      | inr n ↦ rw n (omega arith)
    ]

run_commands-IsSolvent_example : IsSolvent (run_commands uses book)
run_commands-IsSolvent_example = run_commands-IsSolvent uses book book-IsSolvent

run_command-Refines_example :
    Refines (spend_for document 9 payments) book (run_command (spend_for document 9 payments) book)
run_command-Refines_example = run_command-Refines (spend_for document 9 payments) book

get_balances_lem_example :
    (get_balances 7 3 1 book ≡ (
      ok (record {
        balance = pos 50;
        issued_total = pos 50;
        spent_total = pos 0;
        adjusted_total = pos 0;
      }),
      book,
    ))
    × (pos 50 ≡ pos 50 -ℤ pos 0 -ℤ pos 0)
unfolding ◌+ℤ◌
get_balances_lem_example = get_balances_lem 7 3 1 book
