-- ===== src/Tests/Periods.antt =====
-- A year's July that is closed, an August that is opened by the calendar, and the theorems applied
-- to them.
use stock_flow.Finance.GlEngine.{post}
use stock_flow.Finance.PostingValidation.{is_period}
use stock_flow.Tx.{conflict, ok, err, bad_request}
use stock_flow.Prelude.{◌≡◌, ◌∷◌, some, refl, find_first, [], Option}
use stock_flow.Finance.Tables.{period_closed, Ledger, FinancialPeriod}
use stock_flow.Tests.Ledgers.{july, books, sale_input}
use stock_flow.Finance.Calendar.{
  period_row, create_period, CreateFinancialPeriodDto, ensure_current_calendar, close_period,
  closed_at_time, closed_by_user, next_version, Clock, month_row, year_row,
}
use stock_flow.Finance.Calendar.Closing.{
  create_period_once, closed_refuses_posting, close_period_ok, ensuring, no_step, then_step,
  PeriodSteps,
}

abbrev august : Clock
august = record {
  now = 210;
  year = 2026;
  month = 8;
  year_start = 0;
  year_end = 365;
  month_start = 201;
  month_end = 231;
}

abbrev july_closed : FinancialPeriod
july_closed = closed_by_user 9 (next_version (closed_at_time 150 july))

abbrev after_july : Ledger
after_july = record books {
  periods = july_closed ∷ [];
  audit = record { company = 7; user = 9; entity_id = 3; action = period_closed } ∷ [];
}

close_runs : close_period 3 7 9 150 books ≡ (ok (some july_closed), after_july)
unfolding close_period
close_runs = refl

close_twice : close_period 3 7 9 160 after_july ≡ (err bad_request, after_july)
unfolding close_period
close_twice = refl

abbrev in_august : Ledger
in_august = record after_july {
  periods = july_closed ∷ month_row 7 august 51 ∷ [];
  fiscal_years = year_row 7 august 50 ∷ [];
  next_id = 52;
}

ensure_runs : (ensure_current_calendar 7 august after_july).1 ≡ in_august
unfolding ensure_current_calendar
ensure_runs = refl

abbrev into_august : PeriodSteps after_july (ensure_current_calendar 7 august after_july).1
into_august =
    then_step after_july after_july (ensure_current_calendar 7 august after_july).1
      (no_step after_july) (ensuring 7 august after_july)

closed_refuses_posting_example :
    post sale_input (ensure_current_calendar 7 august after_july).1
    ≡ (err bad_request, (ensure_current_calendar 7 august after_july).1)
closed_refuses_posting_example =
    closed_refuses_posting sale_input 9 150 books after_july
      (ensure_current_calendar 7 august after_july).1 (some july_closed) close_runs into_august

close_period_ok_example :
    (t : Ledger) × (row : Option FinancialPeriod) × (close_period 3 7 9 150 books ≡ (ok row, t))
    × (find_first (is_period 3 7) t.periods ≡ some july_closed)
close_period_ok_example = close_period_ok 3 7 9 150 books july refl refl

abbrev september_dto : CreateFinancialPeriodDto
september_dto = record { year = 2026; month = 9; start_date = 232; end_date = 261; notes = some 0 }

abbrev september : Clock
september = record august { now = 240; month = 9; month_start = 232; month_end = 261 }

abbrev with_september : Ledger
with_september = (create_period september_dto 7 9 books).1

create_runs :
    create_period september_dto 7 9 books ≡ (ok (period_row september_dto 7 9 50), with_september)
unfolding create_period
create_runs = refl

abbrev past_august : Ledger
past_august = (ensure_current_calendar 7 august with_september).1

create_period_once_example :
    (create_period september_dto 7 4 past_august ≡ (err conflict, past_august))
    × ((ensure_current_calendar 7 september past_august).1.periods ≡ past_august.periods)
create_period_once_example =
    create_period_once september_dto september_dto 7 9 4 september books with_september past_august
      (period_row september_dto 7 9 50) create_runs
      (then_step with_september with_september past_august (no_step with_september)
        (ensuring 7 august with_september))
      refl refl refl refl
