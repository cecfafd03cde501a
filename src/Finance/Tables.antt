-- ===== src/Finance/Tables.antt =====
-- The rows of the ledger (backend/prisma/schema.prisma) that posting reads and writes. An amount is
-- an integer number of 0.0001 units, the scale of the Decimal(18, 4) columns; instants and ids are
-- numbers. Descriptions, names and time stamps are left out; the notes of a period are a number that
-- stands for their text, 0 for the empty one.
use stock_flow.Prelude.Int.{ℤ}
use stock_flow.Prelude.{Option, Bool, ℕ, List}

pub data AccountType : Type 0 where
  asset liability equity revenue expense : AccountType

-- `code` is the number that the code of the chart spells.
pub record Account : Type 0 where
  pub id : ℕ
  pub company : ℕ
  pub code : ℕ
  pub account_type : AccountType
  pub is_cash_or_bank : Bool
  pub is_active : Bool
  pub is_deleted : Bool

pub data FinancialPeriodStatus : Type 0 where
  open_period closing closed : FinancialPeriodStatus

pub record FinancialPeriod : Type 0 where
  pub id : ℕ
  pub company : ℕ
  pub year : ℕ
  pub month : ℕ
  pub status : FinancialPeriodStatus
  pub start_date : ℕ
  pub end_date : ℕ
  pub opened_by : Option ℕ
  pub closed_by : Option ℕ
  pub closed_at : Option ℕ
  pub notes : Option ℕ
  pub row_version : ℕ

pub record FiscalYear : Type 0 where
  pub id : ℕ
  pub company : ℕ
  pub year : ℕ
  pub start_date : ℕ
  pub end_date : ℕ
  pub is_closed : Bool
  pub row_version : ℕ

pub record JournalLine : Type 0 where
  pub account : ℕ
  pub debit : ℤ
  pub credit : ℤ

pub data JournalEntryStatus : Type 0 where
  draft posted reversed : JournalEntryStatus

-- `referenceType` and `referenceId`: a compensation of another entry, or any other document.
pub data Reference : Type 0 where
  no_reference : Reference
  reversal_of : ℕ → Reference
  document : ℕ → ℕ → Reference

pub record JournalEntry : Type 0 where
  pub id : ℕ
  pub company : ℕ
  pub entry_number : ℕ
  pub period : ℕ
  pub entry_date : ℕ
  pub status : JournalEntryStatus
  pub total_debit : ℤ
  pub total_credit : ℤ
  pub reference : Reference
  pub client_operation_id : Option ℕ
  pub created_by : ℕ
  pub posted_by : Option ℕ
  pub lines : List JournalLine
  pub row_version : ℕ

-- The opening columns are always zero, so the period and the closing columns hold one amount.
pub record AccountBalance : Type 0 where
  pub company : ℕ
  pub account : ℕ
  pub period : ℕ
  pub period_debit : ℤ
  pub period_credit : ℤ
  pub closing_debit : ℤ
  pub closing_credit : ℤ
  pub row_version : ℕ

-- The `type` of a counter: the entry numbers of a period, or the numbers of a kind of document.
pub data SequenceType : Type 0 where
  entries_of : ℕ → SequenceType
  supplier_payments : SequenceType

-- A counter of `DocumentSequenceService`.
pub record DocumentSequence : Type 0 where
  pub company : ℕ
  pub sequence_type : SequenceType
  pub last_number : ℕ

pub data LedgerAction : Type 0 where
  entry_posted entry_reversed period_created period_updated period_closed : LedgerAction

pub record LedgerAudit : Type 0 where
  pub company : ℕ
  pub user : ℕ
  pub entity_id : ℕ
  pub action : LedgerAction

pub record Ledger : Type 0 where
  pub accounts : List Account
  pub periods : List FinancialPeriod
  pub fiscal_years : List FiscalYear
  pub entries : List JournalEntry
  pub balances : List AccountBalance
  pub sequences : List DocumentSequence
  pub audit : List LedgerAudit
  pub next_id : ℕ
