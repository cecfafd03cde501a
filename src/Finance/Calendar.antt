-- ===== src/Finance/Calendar.antt =====
-- The accounting calendar: `FiscalCalendarService`
-- (backend/src/modules/finance/services/fiscal-calendar.service.ts) and `FinancialPeriodsService`
-- (services/financial-periods.service.ts) with its repository. A check before a transaction and the
-- transaction are one serial step.
use stock_flow.Finance.Tables.{
  open_period, closing, closed, period_created, period_updated, period_closed, LedgerAction, Ledger,
  FiscalYear, FinancialPeriodStatus, FinancialPeriod,
}
use stock_flow.Finance.GlEngine.{ledger_audit}
use stock_flow.Finance.PostingValidation.{is_period, is_open}
use stock_flow.Tx.{
  ◌>>◌, ◌>>=◌, transaction, throw_if, pure, or_throw, not_found, modify, gets, conflict,
  unique_violation, bad_request, Tx, ok,
}
use stock_flow.Prelude.{
  ◌∷◌, ◌++◌, ◌==◌, ◌&&◌, ⊤, ℕ, update_many, true, suc, some, not, none, is_none, if◌then◌else◌,
  find_first, false, count_where, [], Option, Bool,
}
pub mod Rows
pub mod Outcome
pub mod Closing

-- An instant of the clock, with the bounds of its UTC year and month.
pub record Clock : Type 0 where
  pub now : ℕ
  pub year : ℕ
  pub month : ℕ
  pub year_start : ℕ
  pub year_end : ℕ
  pub month_start : ℕ
  pub month_end : ℕ

pub record CalendarResult : Type 0 where
  pub fiscal_year : FiscalYear
  pub financial_period : FinancialPeriod
  pub is_postable : Bool

-- @@unique([companyId, year])
abbrev pub is_year : ℕ → ℕ → FiscalYear → Bool
is_year company year y = y.company == company && y.year == year

-- @@unique([companyId, year, month]), and the condition of `findByYearMonth`
abbrev pub is_month : ℕ → ℕ → ℕ → FinancialPeriod → Bool
is_month company year month p = p.company == company && p.year == year && p.month == month

abbrev pub year_row : ℕ → Clock → ℕ → FiscalYear
year_row company clock id = record {
  id = id;
  company = company;
  year = clock.year;
  start_date = clock.year_start;
  end_date = clock.year_end;
  is_closed = false;
  row_version = 0;
}

-- The notes 'Auto-provisioned by FiscalCalendarService'.
abbrev pub auto_provisioned : ℕ
auto_provisioned = 1

abbrev pub month_row : ℕ → Clock → ℕ → FinancialPeriod
month_row company clock id = record {
  id = id;
  company = company;
  year = clock.year;
  month = clock.month;
  status = open_period;
  start_date = clock.month_start;
  end_date = clock.month_end;
  opened_by = none;
  closed_by = none;
  closed_at = none;
  notes = some auto_provisioned;
  row_version = 0;
}

abbrev pub insert_year : FiscalYear → Tx Ledger FiscalYear
insert_year y s =
    (ok y, record s { fiscal_years = s.fiscal_years ++ (y ∷ []); next_id = suc s.next_id })

abbrev pub insert_period : FinancialPeriod → Tx Ledger FinancialPeriod
insert_period p s = (ok p, record s { periods = s.periods ++ (p ∷ []); next_id = suc s.next_id })

-- `upsert` with an empty update: the row that is there, or a new one.
abbrev pub year_or_new : ℕ → Clock → Option FiscalYear → Tx Ledger FiscalYear
year_or_new company clock (some y) s = (ok y, s)
year_or_new company clock none s = insert_year (year_row company clock s.next_id) s

abbrev pub month_or_new : ℕ → Clock → Option FinancialPeriod → Tx Ledger FinancialPeriod
month_or_new company clock (some p) s = (ok p, s)
month_or_new company clock none s = insert_period (month_row company clock s.next_id) s

-- `ensureCurrentCalendar`
unfoldable pub ensure_current_calendar : ℕ → Clock → Tx Ledger CalendarResult
ensure_current_calendar company clock = do
  old_year ← gets λ s. find_first (is_year company clock.year) s.fiscal_years
  fiscal_year ← year_or_new company clock old_year
  old_month ← gets λ s. find_first (is_month company clock.year clock.month) s.periods
  period ← month_or_new company clock old_month
  pure (record {
    fiscal_year = fiscal_year;
    financial_period = period;
    is_postable = is_open period.status;
  })

pub record CreateFinancialPeriodDto : Type 0 where
  pub year : ℕ
  pub month : ℕ
  pub start_date : ℕ
  pub end_date : ℕ
  pub notes : Option ℕ

-- `notes || null`
abbrev pub or_null : Option ℕ → Option ℕ
or_null none = none
or_null (some text) = if text == 0 then none else some text

abbrev pub period_row : CreateFinancialPeriodDto → ℕ → ℕ → ℕ → FinancialPeriod
period_row dto company user id = record {
  id = id;
  company = company;
  year = dto.year;
  month = dto.month;
  status = open_period;
  start_date = dto.start_date;
  end_date = dto.end_date;
  opened_by = some user;
  closed_by = none;
  closed_at = none;
  notes = or_null dto.notes;
  row_version = 0;
}

abbrev pub period_audit : LedgerAction → ℕ → ℕ → ℕ → Tx Ledger ⊤
period_audit action company user id =
    ledger_audit (record { company = company; user = user; entity_id = id; action = action })

-- The transaction of `create`; the insert meets the unique constraint of the months.
unfoldable pub add_period : CreateFinancialPeriodDto → ℕ → ℕ → Tx Ledger FinancialPeriod
add_period dto company user = do
  taken ← gets λ s. find_first (is_month company dto.year dto.month) s.periods
  throw_if (not (is_none taken)) unique_violation
  row ← λ s. insert_period (period_row dto company user s.next_id) s
  period_audit period_created company user row.id
  pure row

-- `create`
unfoldable pub create_period : CreateFinancialPeriodDto → ℕ → ℕ → Tx Ledger FinancialPeriod
unfolding add_period transaction
create_period dto company user = do
  existing ← gets λ s. find_first (is_month company dto.year dto.month) s.periods
  throw_if (not (is_none existing)) conflict
  transaction (add_period dto company user)

abbrev pub has_period_id : ℕ → FinancialPeriod → Bool
has_period_id id p = p.id == id

-- where { id, companyId, rowVersion }
abbrev pub is_period_version : ℕ → ℕ → ℕ → FinancialPeriod → Bool
is_period_version id company version p =
    p.id == id && p.company == company && p.row_version == version

abbrev pub next_version : FinancialPeriod → FinancialPeriod
next_version p = record p { row_version = suc p.row_version }

-- `FinancialPeriodsRepository.update`: the guarded write of the columns, then the write of the
-- relations, and the row as it is read back.
unfoldable pub update_row :
    ℕ
    → (FinancialPeriod → FinancialPeriod)
    → (FinancialPeriod → FinancialPeriod)
    → ℕ
    → ℕ
    → Tx Ledger (Option FinancialPeriod)
update_row id columns relations company version = do
  count ← gets λ s. count_where (is_period_version id company version) s.periods
  modify λ s. record s {
    periods =
        update_many (is_period_version id company version) (λ p. next_version (columns p))
          s.periods;
  }
  existing ← gets λ s. find_first (is_period id company) s.periods
  throw_if (count == 0 && is_none existing) not_found
  throw_if (count == 0) conflict
  modify λ s. record s { periods = update_many (has_period_id id) relations s.periods }
  gets λ s. find_first (has_period_id id) s.periods

-- The transaction of `update` and of `close`: the row, and the audit log.
unfoldable pub write_period :
    LedgerAction
    → (FinancialPeriod → FinancialPeriod)
    → (FinancialPeriod → FinancialPeriod)
    → ℕ
    → ℕ
    → FinancialPeriod
    → Tx Ledger (Option FinancialPeriod)
unfolding update_row
write_period action columns relations company user before = do
  updated ← update_row before.id columns relations company before.row_version
  period_audit action company user before.id
  pure updated

-- The data of `update`: notes that the request has.
abbrev pub with_notes : Option ℕ → FinancialPeriod → FinancialPeriod
with_notes none p = p
with_notes (some text) p = record p { notes = some text }

abbrev pub same_relations : FinancialPeriod → FinancialPeriod
same_relations p = p

-- `update`
unfoldable pub update_period : ℕ → Option ℕ → ℕ → ℕ → Tx Ledger (Option FinancialPeriod)
unfolding write_period transaction
update_period id notes company user = do
  found ← gets λ s. find_first (is_period id company) s.periods
  before ← or_throw found not_found
  transaction (write_period period_updated (with_notes notes) same_relations company user before)

abbrev pub is_closed : FinancialPeriodStatus → Bool
is_closed closed = true
is_closed closing = false
is_closed open_period = false

abbrev pub is_closing : FinancialPeriodStatus → Bool
is_closing closing = true
is_closing closed = false
is_closing open_period = false

abbrev pub closed_at_time : ℕ → FinancialPeriod → FinancialPeriod
closed_at_time now p = record p { status = closed; closed_at = some now }

abbrev pub closed_by_user : ℕ → FinancialPeriod → FinancialPeriod
closed_by_user user p = record p { closed_by = some user }

-- `close`
unfoldable pub close_period : ℕ → ℕ → ℕ → ℕ → Tx Ledger (Option FinancialPeriod)
unfolding write_period transaction
close_period id company user now = do
  found ← gets λ s. find_first (is_period id company) s.periods
  before ← or_throw found not_found
  throw_if (is_closed before.status) bad_request
  throw_if (is_closing before.status) bad_request
  transaction
      (write_period period_closed (closed_at_time now) (closed_by_user user) company user before)
