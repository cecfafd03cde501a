-- ===== src/Finance/PostingValidation.antt =====
-- `PostingValidationService` (backend/src/modules/finance/services/posting-validation.service.ts).
pub mod Accepted
use stock_flow.Tx.{◌>>◌, ◌>>=◌, throw_if, pure, or_throw, gets, bad_request, Tx}
use stock_flow.Finance.Tables.{
  open_period, closing, closed, Ledger, FinancialPeriod, Account, JournalLine,
  FinancialPeriodStatus,
}
use stock_flow.Prelude.Int.{ltb_ℤ, pos, eq_ℤ, ◌+ℤ◌, ℤ}
use stock_flow.Prelude.{
  map, ltb, length, find_many, find_first, any_where, [], ◌||◌, not, false, true, ◌==◌, ◌&&◌,
  if◌then◌else◌, Bool, ◌∷◌, ℕ, List,
}

abbrev pub contains : ℕ → List ℕ → Bool
contains k [] = false
contains k (x ∷ xs) = x == k || contains k xs

abbrev pub without : ℕ → List ℕ → List ℕ
without k [] = []
without k (x ∷ xs) = if x == k then without k xs else x ∷ without k xs

-- `[...new Set(ids)]`
unfoldable pub distinct : List ℕ → List ℕ
distinct [] = []
distinct (x ∷ xs) = x ∷ without x (distinct xs)

abbrev pub is_open : FinancialPeriodStatus → Bool
is_open open_period = true
is_open closing = false
is_open closed = false

abbrev pub line_account : JournalLine → ℕ
line_account l = l.account

-- where { id: { in: accountIds }, companyId, isActive: true, deletedAt: null }
abbrev pub is_live_account : List ℕ → ℕ → Account → Bool
is_live_account ids company a =
    contains a.id ids && a.company == company && a.is_active && not a.is_deleted

abbrev pub is_period : ℕ → ℕ → FinancialPeriod → Bool
is_period id company p = p.id == id && p.company == company

-- A line with neither a debit nor a credit.
abbrev pub is_empty_line : JournalLine → Bool
is_empty_line l = eq_ℤ l.debit (pos 0) && eq_ℤ l.credit (pos 0)

-- The loop that adds up the two columns.
abbrev pub add_columns : ℤ → ℤ → List JournalLine → ℤ × ℤ
add_columns debit credit [] = (debit, credit)
add_columns debit credit (l ∷ ls) = add_columns (debit +ℤ l.debit) (credit +ℤ l.credit) ls

unfoldable pub validate : ℕ → ℕ → ℕ → List JournalLine → Tx Ledger (ℤ × ℤ)
unfolding distinct
validate company entry_date period_id lines = do
  found ← gets λ s. find_first (is_period period_id company) s.periods
  period ← or_throw found bad_request
  throw_if (not (is_open period.status)) bad_request
  throw_if (ltb entry_date period.start_date || ltb period.end_date entry_date) bad_request
  throw_if (ltb (length lines) 2) bad_request
  let ids = distinct (map line_account lines)
  accounts ← gets λ s. find_many (is_live_account ids company) s.accounts
  throw_if (not (length accounts == length ids)) bad_request
  throw_if (any_where is_empty_line lines) bad_request
  let (debit, credit) = add_columns (pos 0) (pos 0) lines
  throw_if (not (eq_ℤ debit credit)) bad_request
  throw_if (ltb_ℤ debit (pos 0) || ltb_ℤ credit (pos 0)) bad_request
  pure (debit, credit)
