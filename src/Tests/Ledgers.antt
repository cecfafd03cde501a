-- ===== src/Tests/Ledgers.antt =====
-- A ledger of two accounts, one posting and its reversal, and the theorems applied to them.
use stock_flow.Finance.GlEngine.Reversal.{reverse_compensates, reverse-IsReconciled}
use stock_flow.Prelude.Int.{◌≤ℤ◌, ◌+ℤ◌, pos, negsuc}
use stock_flow.Finance.PostingValidation.{validate, is_period}
use stock_flow.Tx.{ok, err, conflict}
use stock_flow.Finance.GlEngine.Balances.{lines_total, debit_side, credit_side, closing_of}
use stock_flow.Finance.GlEngine.{
  upsert_balance, reverse, post, new_balance, apply_lines, PostJournalEntryInput,
}
use stock_flow.Prelude.{
  ◌≤◌, ◌≡◌, ◌∷◌, true, subst, some, refl, none, find_first, false, arith, ap, [], List,
}
use stock_flow.Finance.GlEngine.Journal.{post_balanced, post-IsReconciled, IsReconciled, IsPosting}
use stock_flow.Finance.PostingValidation.Accepted.{
  negative_line_accepted, debit_of, credit_of, column,
}
use stock_flow.Finance.Tables.{
  reversal_of, entries_of, AccountType, reversed, posted, open_period, entry_posted, document,
  Ledger, JournalLine, JournalEntry, FinancialPeriod,
}

abbrev pub july : FinancialPeriod
july = record {
  id = 3;
  company = 7;
  year = 2026;
  month = 7;
  status = open_period;
  start_date = 100;
  end_date = 200;
  opened_by = none;
  closed_by = none;
  closed_at = none;
  notes = none;
  row_version = 0;
}

abbrev pub books : Ledger
books = record {
  accounts =
      record {
        id = 1;
        company = 7;
        code = 1000;
        account_type = AccountType.asset;
        is_cash_or_bank = true;
        is_active = true;
        is_deleted = false;
      }
      ∷ record {
        id = 2;
        company = 7;
        code = 2100;
        account_type = AccountType.liability;
        is_cash_or_bank = false;
        is_active = true;
        is_deleted = false;
      }
      ∷ [];
  periods = july ∷ [];
  fiscal_years = [];
  entries = [];
  balances = [];
  sequences = [];
  audit = [];
  next_id = 50;
}

abbrev sale_lines : List JournalLine
sale_lines =
    record { account = 1; debit = pos 900; credit = pos 0 }
    ∷ record { account = 2; debit = pos 0; credit = pos 900 }
    ∷ []

abbrev pub sale_input : PostJournalEntryInput
sale_input = record {
  company = 7;
  period = 3;
  entry_date = 120;
  reference = document 1 8;
  created_by = 9;
  client_operation_id = none;
  lines = sale_lines;
}

abbrev sale_entry : JournalEntry
sale_entry = record {
  id = 50;
  company = 7;
  entry_number = 1;
  period = 3;
  entry_date = 120;
  status = posted;
  total_debit = pos 900;
  total_credit = pos 900;
  reference = document 1 8;
  client_operation_id = none;
  created_by = 9;
  posted_by = some 9;
  lines = sale_lines;
  row_version = 0;
}

abbrev booked : Ledger
booked = record books {
  entries = sale_entry ∷ [];
  balances =
      new_balance 7 3 (record { account = 1; debit = pos 900; credit = pos 0 })
      ∷ new_balance 7 3 (record { account = 2; debit = pos 0; credit = pos 900 })
      ∷ [];
  sequences = record { company = 7; sequence_type = entries_of 3; last_number = 1 } ∷ [];
  audit = record { company = 7; user = 9; entity_id = 50; action = entry_posted } ∷ [];
  next_id = 51;
}

post_runs : post sale_input books ≡ (ok 50, booked)
unfolding post validate apply_lines upsert_balance ◌+ℤ◌
post_runs = refl

reverse_runs : (reverse 50 7 9 130 booked).0 ≡ ok 51
unfolding reverse validate ◌+ℤ◌
reverse_runs = refl

books-IsReconciled : IsReconciled books
books-IsReconciled side c a p = refl

booked-IsReconciled : IsReconciled booked
booked-IsReconciled =
    subst (λ r. IsReconciled r.1) post_runs (post-IsReconciled sale_input books books-IsReconciled)

negative_line_accepted_example :
    validate 7 120 3
      (record { account = 1; debit = pos 5; credit = negsuc 9 }
        ∷ record { account = 2; debit = pos 0; credit = pos 15 }
        ∷ [])
      books
    ≡ (ok (pos 5, pos 5), books)
negative_line_accepted_example =
    negative_line_accepted 7 120 3 1 2 9 5 (july) books refl refl (omega arith) (omega arith)
      (omega arith) refl

post-IsReconciled_example : IsReconciled (post sale_input books).1
post-IsReconciled_example = post-IsReconciled sale_input books books-IsReconciled

post_balanced_example :
    IsPosting sale_input books 50 (post sale_input books).1
    × (column debit_of sale_lines ≡ column credit_of sale_lines)
    × (pos 0 ≤ℤ column debit_of sale_lines)
    × (row : FinancialPeriod) × (find_first (is_period 3 7) books.periods ≡ some row)
    × (row.status ≡ open_period)
    × (row.start_date ≤ 120)
    × (120 ≤ row.end_date)
post_balanced_example = post_balanced sale_input books (ap (λ r. r.0) post_runs)

reverse-IsReconciled_example : IsReconciled (reverse 50 7 9 130 booked).1
reverse-IsReconciled_example = reverse-IsReconciled 50 7 9 130 booked booked-IsReconciled

reverse_compensates_example :
    closing_of debit_side 7 2 3 (reverse 50 7 9 130 booked).1.balances
    ≡ closing_of debit_side 7 2 3 booked.balances +ℤ lines_total credit_side 7 2 3 7 3 sale_lines
reverse_compensates_example =
    reverse_compensates 50 7 9 130 booked sale_entry reverse_runs refl debit_side 7 2 3

abbrev taken_back : JournalEntry
taken_back = record sale_entry { status = reversed; row_version = 1 }

-- A POSTED compensation.
abbrev compensation : JournalEntry
compensation = record sale_entry { reference = reversal_of 8 }

reverse_twice :
    reverse 50 7 9 130 (record booked { entries = taken_back ∷ [] })
    ≡ (err conflict, record booked { entries = taken_back ∷ [] })
unfolding reverse
reverse_twice = refl
