-- ===== src/Finance/Calendar/Closing.antt =====
-- Runs of the accounting calendar between postings, and what closing a period means for them:
-- `FinancialPeriodsService.close` and `FiscalCalendarService.ensureCurrentCalendar`
-- (backend/src/modules/finance/services), with `GlEngineService.post`.
use stock_flow.Finance.GlEngine.Journal.{post_periods}
use stock_flow.Finance.PostingValidation.{validate, is_period}
use stock_flow.Tx.{conflict, transaction, ok, err, bad_request}
use stock_flow.Finance.GlEngine.{post, execute_post, PostJournalEntryInput}
use stock_flow.Finance.Tables.{
  Ledger, period_closed, open_period, closing, closed, FinancialPeriodStatus, FinancialPeriod,
}
use stock_flow.Finance.Calendar.{
  period_row, is_year, is_month, add_period, ensure_current_calendar, create_period, update_period,
  close_period, closed_at_time, closed_by_user, next_version, has_period_id, is_period_version,
  Clock, CreateFinancialPeriodDto, write_period, update_row, is_closed, is_closing,
}
use stock_flow.Finance.Calendar.Outcome.{
  ensure_current_calendar-changes, create_period-changes, update_period-changes,
  close_period-changes, write_period_ok,
}
use stock_flow.Finance.Calendar.Rows.{
  change-HasMonth, HasMonth, unchanged, PeriodChange, changed_twice, IsClosed, change-IsClosed,
}
use stock_flow.Prelude.{
  ◌∷◌, ◌++◌, suc, find_first-append_one, [], ◌≡◌, ◌∙◌, ◌==◌, ℕ, update_many, true, sym, subst, some,
  refl, inr, inl, find_first_sound, find_first-update_many, find_first, false, count_where_pos,
  count_where, ap, Option, Option-cases, Bool-cases, arith,
}

-- One operation, whatever its outcome.
pub data PeriodStep : Ledger → Ledger → Type 0 where
  ensuring :
      (company : ℕ) (clock : Clock) (s : Ledger)
      → PeriodStep s (ensure_current_calendar company clock s).1
  creating :
      (dto : CreateFinancialPeriodDto) (company user : ℕ) (s : Ledger)
      → PeriodStep s (create_period dto company user s).1
  noting :
      (id : ℕ) (notes : Option ℕ) (company user : ℕ) (s : Ledger)
      → PeriodStep s (update_period id notes company user s).1
  shutting :
      (id company user now : ℕ) (s : Ledger) → PeriodStep s (close_period id company user now s).1
  posting : (input : PostJournalEntryInput) (s : Ledger) → PeriodStep s (post input s).1

pub data PeriodSteps : Ledger → Ledger → Type 0 where
  no_step : (s : Ledger) → PeriodSteps s s
  then_step : (s t u : Ledger) → PeriodSteps s t → PeriodStep t u → PeriodSteps s u

step-changes : (s t : Ledger) → PeriodStep s t → PeriodChange s.periods t.periods
step-changes s t (ensuring company clock _) = ensure_current_calendar-changes company clock s
step-changes s t (creating dto company user _) = create_period-changes dto company user s
step-changes s t (noting id notes company user _) = update_period-changes id notes company user s
step-changes s t (shutting id company user now _) = close_period-changes id company user now s
step-changes s t (posting input _) =
    subst (PeriodChange s.periods) (sym (post_periods input s)) (unchanged s.periods)

steps-changes : (s t : Ledger) → PeriodSteps s t → PeriodChange s.periods t.periods
steps-changes s t (no_step _) = unchanged s.periods
steps-changes s u (then_step _ t _ run one) =
    changed_twice s.periods t.periods u.periods (steps-changes s t run) (step-changes t u one)

-- A `create` that succeeds leaves a period of its month.
create_period_ok :
    (dto : CreateFinancialPeriodDto) (company user : ℕ) (s t : Ledger) (row : FinancialPeriod)
    → create_period dto company user s ≡ (ok row, t)
    → HasMonth company dto.year dto.month t.periods
unfolding create_period add_period transaction
create_period_ok dto company user s t row e =
    let q = is_month company dto.year dto.month in
    elim (Option-cases (find_first q s.periods)) [
      | inr (p, taken) ↦ absurd (ground (arith, e, taken))
      | inl free ↦
          let made = period_row dto company user s.next_id in
          let same : s.periods ++ (made ∷ []) ≡ t.periods = ground (arith, e, free) in
          let mine : q made ≡ true = ground arith in
          (
            made,
            subst (λ xs. find_first q xs ≡ some made) same
                (find_first-append_one q s.periods made free mine),
          )
    ]

create_period_taken :
    (dto : CreateFinancialPeriodDto) (company user : ℕ) (s : Ledger)
    → HasMonth company dto.year dto.month s.periods
    → create_period dto company user s ≡ (err conflict, s)
unfolding create_period
create_period_taken dto company user s (p, found) = ground (arith, found)

ensured_month :
    (company : ℕ) (clock : Clock) (s : Ledger)
    → HasMonth company clock.year clock.month s.periods
    → (ensure_current_calendar company clock s).1.periods ≡ s.periods
unfolding ensure_current_calendar
ensured_month company clock s (p, found) =
    elim (Option-cases (find_first (is_year company clock.year) s.fiscal_years)) [
      | inl no_year ↦ ground (arith, no_year, found)
      | inr (y, there) ↦ ground (arith, there, found)
    ]

-- A month gets its period once. After a `create` that succeeds, and whatever calls of
-- ensureCurrentCalendar, create, update, close and post come in between, with any outcomes: a further
-- `create` for this month is refused with a conflict and changes nothing, and
-- ensureCurrentCalendar at an instant of this month keeps the periods as they are.
pub create_period_once :
    (first second : CreateFinancialPeriodDto) (company user other : ℕ) (clock : Clock)
    (s t u : Ledger) (row : FinancialPeriod)
    → create_period first company user s ≡ (ok row, t)
    → PeriodSteps t u
    → second.year ≡ first.year
    → second.month ≡ first.month
    → clock.year ≡ first.year
    → clock.month ≡ first.month
    → (create_period second company other u ≡ (err conflict, u))
      × ((ensure_current_calendar company clock u).1.periods ≡ u.periods)
create_period_once first second company user other clock s t u row e run year month now_year
      now_month =
    let there =
      change-HasMonth company first.year first.month t.periods u.periods (steps-changes t u run)
        (create_period_ok first company user s t row e) in
    (
      create_period_taken second company other u (rw (year, month) there),
      ensured_month company clock u (rw (now_year, now_month) there),
    )

open_or_not :
    (st : FinancialPeriodStatus) → is_closed st ≡ false → is_closing st ≡ false → st ≡ open_period
open_or_not open_period c d = refl
open_or_not closing c d = cc
open_or_not closed c d = cc

module _ (id company user now : ℕ) (s : Ledger) (p : FinancialPeriod)
    (found : find_first (is_period id company) s.periods ≡ some p)
    (opened : p.status ≡ open_period) where
  counted : (count_where (is_period_version p.id company p.row_version) s.periods == 0) ≡ false
  counted =
      let this = find_first_sound (is_period id company) s.periods p found in
      let more =
        count_where_pos (is_period_version p.id company p.row_version) (is_period id company)
          s.periods p found (ground (arith, this)) in
      ground (arith, more)

  closes_rows :
      (close_period id company user now s).1.periods
      ≡ update_many (has_period_id p.id) (closed_by_user user) (
          update_many
            (is_period_version p.id company p.row_version)
            (λ y. next_version (closed_at_time now y))
            s.periods)
  unfolding close_period
  closes_rows =
      rw (found, opened)
        (write_period_ok period_closed (closed_at_time now) (closed_by_user user) company user p s
          counted)

  -- A period that is OPEN can be closed: `close` succeeds, and the same query then finds the period
  -- with the status CLOSED, the time and the user of the close, the next row version, and its other
  -- columns as they were.
  pub close_period_ok :
      (t : Ledger) × (row : Option FinancialPeriod) × (close_period id company user now s
        ≡ (ok row, t))
      × (find_first (is_period id company) t.periods
          ≡ some (record p {
            status = closed;
            closed_at = some now;
            closed_by = some user;
            row_version = suc p.row_version;
          }))
  unfolding close_period transaction write_period update_row
  close_period_ok =
      let t = (close_period id company user now s).1 in
      let this = find_first_sound (is_period id company) s.periods p found in
      let guard : is_period_version p.id company p.row_version p ≡ true = ground (arith, this) in
      let first =
        find_first-update_many (is_period_version p.id company p.row_version) (is_period id company)
          (λ y. next_version (closed_at_time now y)) s.periods p found guard (λ y. refl) in
      let mine : has_period_id p.id (next_version (closed_at_time now p)) ≡ true = ground arith in
      let second =
        find_first-update_many (has_period_id p.id) (is_period id company) (closed_by_user user)
          (update_many (is_period_version p.id company p.row_version)
            (λ y. next_version (closed_at_time now y)) s.periods)
          (next_version (closed_at_time now p)) first mine (λ y. refl) in
      let there = counted in
      let good : (close_period id company user now s).0
          ≡ ok (find_first (has_period_id p.id) t.periods) =
        ground (arith, found, opened, there) in
      (t, find_first (has_period_id p.id) t.periods, λ i. (good i, t), rw closes_rows second)

-- What was closed was OPEN.
close_period_inv :
    (id company user now : ℕ) (s t : Ledger) (row : Option FinancialPeriod)
    → close_period id company user now s ≡ (ok row, t)
    → (p : FinancialPeriod) × (find_first (is_period id company) s.periods ≡ some p)
      × (p.status ≡ open_period)
unfolding close_period
close_period_inv id company user now s t row e =
    elim (Option-cases (find_first (is_period id company) s.periods)) [
      | inl lost ↦ absurd (ground (arith, e, lost))
      | inr (p, found) ↦ elim (Bool-cases (is_closed p.status)) [
        | inl already ↦ absurd (ground (arith, e, found, already))
        | inr yet ↦ elim (Bool-cases (is_closing p.status)) [
          | inl busy ↦ absurd (ground (arith, e, found, yet, busy))
          | inr free ↦ (p, found, open_or_not p.status yet free)
        ]
      ]
    ]

post_refused :
    (input : PostJournalEntryInput) (s : Ledger)
    → IsClosed input.period input.company s.periods
    → post input s ≡ (err bad_request, s)
unfolding post execute_post validate transaction
post_refused input s (p, found, done) = ground (arith, found, done)

-- Once `close` has succeeded for a period, every later posting into it is refused with a bad request
-- and changes nothing, whatever calls of ensureCurrentCalendar, create, update, close and post come
-- in between, with any outcomes: no operation opens it again.
pub closed_refuses_posting :
    (input : PostJournalEntryInput) (user now : ℕ) (s t u : Ledger) (row : Option FinancialPeriod)
    → close_period input.period input.company user now s ≡ (ok row, t)
    → PeriodSteps t u
    → post input u ≡ (err bad_request, u)
closed_refuses_posting input user now s t u row e run =
    let (p, found, opened) = close_period_inv input.period input.company user now s t row e in
    let (t', row', e', here) =
      close_period_ok input.period input.company user now s p found opened in
    let same : t' ≡ t = ap (λ r. r.1) (sym e' ∙ e) in
    let there : IsClosed input.period input.company t.periods =
      subst (λ (l : Ledger). IsClosed input.period input.company l.periods) same
        (closed_by_user user (next_version (closed_at_time now p)), here, refl) in
    post_refused input u
      (change-IsClosed input.period input.company t.periods u.periods (steps-changes t u run) there)
