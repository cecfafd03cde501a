-- ===== src/Finance/GlEngine.antt =====
-- `GlEngineService` (backend/src/modules/finance/services/gl-engine.service.ts), with the entry
-- numbers of `DocumentSequenceService` (backend/src/modules/shared/services). No handler subscribes
-- to journal.posted, and a failure to publish it is caught, so the event leaves no trace here.
pub mod Balances
pub mod Journal
pub mod Reversal
use stock_flow.Prelude.Int.{◌+ℤ◌, ℤ}
use stock_flow.Finance.PostingValidation.{validate}
use stock_flow.Tx.{
  ◌>>◌, ◌>>=◌, unique_violation, transaction, throw_if, throw, pure, or_throw, not_found, modify,
  gets, conflict, bad_request, Tx,
}
use stock_flow.Prelude.{
  ◌∷◌, ◌==◌, ◌++◌, ◌&&◌, ⊤, ℕ, update_many, true, suc, some, none, map, if◌then◌else◌, find_first,
  false, count_where, any_where, [], Option, List, Bool,
}
use stock_flow.Finance.Tables.{
  supplier_payments, entries_of, SequenceType, entry_reversed, entry_posted, reversed, reversal_of,
  posted, no_reference, draft, document, Reference, LedgerAudit, Ledger, JournalLine,
  JournalEntryStatus, JournalEntry, DocumentSequence, AccountBalance,
}

abbrev pub same_type : SequenceType → SequenceType → Bool
same_type (entries_of p) (entries_of q) = p == q
same_type supplier_payments supplier_payments = true
same_type a b = false

abbrev pub is_sequence : ℕ → SequenceType → DocumentSequence → Bool
is_sequence company type q = q.company == company && same_type q.sequence_type type

-- `DocumentSequenceService.nextNumber`: an atomic upsert.
unfoldable pub next_number : ℕ → SequenceType → Tx Ledger ℕ
next_number company type s = elim (find_first (is_sequence company type) s.sequences) [
  | none ↦ pure 1 (record s {
    sequences =
        s.sequences ++ (record { company = company; sequence_type = type; last_number = 1 } ∷ []);
  })
  | some q ↦ pure (suc q.last_number) (record s {
    sequences =
        update_many (is_sequence company type) (λ r. record r { last_number = suc r.last_number })
          s.sequences;
  })
]

-- where { companyId_accountId_financialPeriodId }
abbrev pub is_balance : ℕ → ℕ → ℕ → AccountBalance → Bool
is_balance company account period b =
    b.company == company && b.account == account && b.period == period

abbrev pub new_balance : ℕ → ℕ → JournalLine → AccountBalance
new_balance company period l = record {
  company = company;
  account = l.account;
  period = period;
  period_debit = l.debit;
  period_credit = l.credit;
  closing_debit = l.debit;
  closing_credit = l.credit;
  row_version = 0;
}

abbrev pub increment : JournalLine → AccountBalance → AccountBalance
increment l b = record b {
  period_debit = b.period_debit +ℤ l.debit;
  period_credit = b.period_credit +ℤ l.credit;
  closing_debit = b.closing_debit +ℤ l.debit;
  closing_credit = b.closing_credit +ℤ l.credit;
  row_version = suc b.row_version;
}

-- The upsert of one line.
unfoldable pub upsert_balance : ℕ → ℕ → JournalLine → List AccountBalance → List AccountBalance
upsert_balance company period l bs =
    if any_where (is_balance company l.account period) bs
    then update_many (is_balance company l.account period) (increment l) bs
    else bs ++ (new_balance company period l ∷ [])

-- The loop of `updateAccountBalances`.
unfoldable pub apply_lines : ℕ → ℕ → List JournalLine → List AccountBalance → List AccountBalance
apply_lines company period [] bs = bs
apply_lines company period (l ∷ ls) bs =
    apply_lines company period ls (upsert_balance company period l bs)

unfoldable pub update_account_balances : ℕ → ℕ → List JournalLine → Tx Ledger ⊤
update_account_balances company period lines =
    modify λ s. record s { balances = apply_lines company period lines s.balances }

pub record PostJournalEntryInput : Type 0 where
  pub company : ℕ
  pub period : ℕ
  pub entry_date : ℕ
  pub reference : Reference
  pub created_by : ℕ
  pub client_operation_id : Option ℕ
  pub lines : List JournalLine

-- @@unique([companyId, clientOperationId]) on the entries; NULL never collides.
abbrev pub same_operation : ℕ → Option ℕ → JournalEntry → Bool
same_operation company none e = false
same_operation company (some o) e =
    e.company == company && elim e.client_operation_id [ none ↦ false | some o' ↦ o' == o ]

-- The row that `createInTransaction` writes, with status POSTED.
abbrev pub posted_entry : PostJournalEntryInput → ℕ → ℤ × ℤ → ℕ → JournalEntry
posted_entry input number (debit, credit) id = record {
  id = id;
  company = input.company;
  entry_number = number;
  period = input.period;
  entry_date = input.entry_date;
  status = posted;
  total_debit = debit;
  total_credit = credit;
  reference = input.reference;
  client_operation_id = input.client_operation_id;
  created_by = input.created_by;
  posted_by = none;
  lines = input.lines;
  row_version = 0;
}

unfoldable pub create_posted_entry : PostJournalEntryInput → ℕ → ℤ × ℤ → Tx Ledger JournalEntry
create_posted_entry input number totals s =
    let entry = posted_entry input number totals s.next_id in
    if any_where (same_operation input.company input.client_operation_id) s.entries
    then throw unique_violation s
    else pure entry (record s { entries = s.entries ++ (entry ∷ []); next_id = suc s.next_id })

-- `postedBy` is written after the row is created.
abbrev pub signed_by : ℕ → JournalEntry → JournalEntry
signed_by user e = record e { posted_by = some user }

abbrev pub has_id : ℕ → JournalEntry → Bool
has_id id e = e.id == id

abbrev pub ledger_audit : LedgerAudit → Tx Ledger ⊤
ledger_audit a = modify λ s. record s { audit = s.audit ++ (a ∷ []) }

-- `executePost`, inside the caller's transaction; it returns the id of the entry.
unfoldable pub execute_post : PostJournalEntryInput → Tx Ledger ℕ
unfolding next_number create_posted_entry update_account_balances
execute_post input = do
  totals ← validate input.company input.entry_date input.period input.lines
  number ← next_number input.company (entries_of input.period)
  entry ← create_posted_entry input number totals
  modify λ s. record s {
    entries = update_many (has_id entry.id) (signed_by input.created_by) s.entries;
  }
  update_account_balances input.company input.period input.lines
  ledger_audit (record {
    company = input.company;
    user = input.created_by;
    entity_id = entry.id;
    action = entry_posted;
  })
  pure entry.id

-- `post` without a caller's transaction.
unfoldable pub post : PostJournalEntryInput → Tx Ledger ℕ
unfolding execute_post transaction
post input = transaction (execute_post input)

abbrev pub is_posted : JournalEntryStatus → Bool
is_posted draft = false
is_posted posted = true
is_posted reversed = false

abbrev pub is_entry : ℕ → ℕ → JournalEntry → Bool
is_entry id company e = e.id == id && e.company == company

-- where { id, companyId, status: POSTED }
abbrev pub is_claimable : ℕ → ℕ → JournalEntry → Bool
is_claimable id company e = is_entry id company e && is_posted e.status

abbrev pub claimed : JournalEntry → JournalEntry
claimed e = record e { status = reversed; row_version = suc e.row_version }

abbrev pub swapped : JournalLine → JournalLine
swapped l = record { account = l.account; debit = l.credit; credit = l.debit }

abbrev pub is_reversal : Reference → Bool
is_reversal no_reference = false
is_reversal (reversal_of _) = true
is_reversal (document _ _) = false

-- The input of the compensating entry, dated now.
abbrev pub reversal_input : JournalEntry → ℕ → ℕ → ℕ → PostJournalEntryInput
reversal_input original company user now = record {
  company = company;
  period = original.period;
  entry_date = now;
  reference = reversal_of original.id;
  created_by = user;
  client_operation_id = none;
  lines = map swapped original.lines;
}

-- The body of the transaction in `reverse`.
unfoldable pub reverse_work : ℕ → ℕ → ℕ → ℕ → Tx Ledger ℕ
unfolding execute_post
reverse_work original_id company user now = do
  found ← gets λ s. find_first (is_entry original_id company) s.entries
  original ← or_throw found not_found
  throw_if (is_reversal original.reference) bad_request
  count ← gets λ s. count_where (is_claimable original_id company) s.entries
  modify
      λ s. record s { entries = update_many (is_claimable original_id company) claimed s.entries }
  throw_if (count == 0) conflict
  id ← execute_post (reversal_input original company user now)
  ledger_audit
      (record { company = company; user = user; entity_id = original_id; action = entry_reversed })
  pure id

-- `reverse`
unfoldable pub reverse : ℕ → ℕ → ℕ → ℕ → Tx Ledger ℕ
unfolding reverse_work transaction
reverse original_id company user now = transaction (reverse_work original_id company user now)
