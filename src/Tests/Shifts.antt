-- ===== src/Tests/Shifts.antt =====
-- A cash shift that is opened, has cash put in or is closed with a shortage, and the theorems applied
-- to it.
use stock_flow.Finance.PostingValidation.{validate}
use stock_flow.Finance.GlEngine.{execute_post}
use stock_flow.Prelude.Int.{◌-ℤ◌, ◌+ℤ◌, pos, negsuc}
use stock_flow.Tx.{ok, err, conflict}
use stock_flow.Idempotency.{Store}
use stock_flow.Sales.CashShift.Moved.{apply_cash_mutation_ok, IsMovement}
use stock_flow.Sales.CashShift.Closing.{close_shift_ok, IsClosing}
use stock_flow.Finance.Calendar.{ensure_current_calendar, Clock}
use stock_flow.Finance.Tables.{AccountType, Account}
use stock_flow.Tests.Payables.{july}
use stock_flow.Sales.CashShift.{on_books, is_open_shift, Till, CashShift}
use stock_flow.Sales.CashShift.Operations.{
  update_shift, post_gap, open_books, shift_row, open_shift, close_shift, has_shift_id,
  OpenShiftDto,
}
use stock_flow.Sales.CashShift.Movements.{
  apply_cash_mutation, cash_mutation, into_drawer, CashInOutDto,
}
use stock_flow.Sales.CashShift.Single.{
  closing_one, opening_one, then_request, no_request, steps-IsOrderly, cash_mutation-IsOrderly,
  ShiftSteps, IsOrderly,
}
use stock_flow.Finance.GlEngine.Journal.{IsReconciled}
use stock_flow.Prelude.{
  suc, ◌≡◌, ◌∷◌, ℕ, true, some, refl, none, map, find_first, false, [], Option, arith,
}

abbrev account_of : ℕ → ℕ → AccountType → Account
account_of id code type = record {
  id = id;
  company = 3;
  code = code;
  account_type = type;
  is_cash_or_bank = false;
  is_active = true;
  is_deleted = false;
}

abbrev clock_of : Clock
clock_of = record {
  now = 150;
  year = 2026;
  month = 7;
  year_start = 0;
  year_end = 365;
  month_start = 100;
  month_end = 200;
}

abbrev empty_till : Till
empty_till = record {
  companies = record { id = 3; currency = 0 } ∷ [];
  warehouses = record { id = 6; company = 3; is_active = true; is_deleted = false } ∷ [];
  registers = [];
  shifts = [];
  refunds = [];
  books = record {
    accounts =
        account_of 1 1010 AccountType.asset
        ∷ account_of 2 6200 AccountType.expense
        ∷ account_of 3 4210 AccountType.revenue
        ∷ account_of 4 7000 AccountType.revenue
        ∷ [];
    periods = july ∷ [];
    fiscal_years = [];
    entries = [];
    balances = [];
    sequences = [];
    audit = [];
    next_id = 50;
  };
  audit = [];
  next_id = 70;
}

abbrev open_dto : OpenShiftDto
open_dto = record { warehouse = 6; opening_balance = pos 1000; currency = none }

abbrev move_dto : CashInOutDto
move_dto = record { amount = pos 200; counterpart_account = some 4; client_operation_id = some 8 }

abbrev opened_till : Till
opened_till = (open_shift open_dto 9 3 empty_till).1

abbrev first_shift : CashShift
first_shift = shift_row open_dto 9 3 0 70

open_runs : open_shift open_dto 9 3 empty_till ≡ (ok first_shift, opened_till)
unfolding open_shift
open_runs = refl

open_twice : (open_shift open_dto 9 3 opened_till).0 ≡ err conflict
unfolding open_shift
open_twice = refl

abbrev filled_till : Till
filled_till = (apply_cash_mutation move_dto 9 3 6 into_drawer clock_of opened_till).1

abbrev filled_row : Option CashShift
filled_row = find_first (has_shift_id 70) filled_till.shifts

fill_runs :
    apply_cash_mutation move_dto 9 3 6 into_drawer clock_of opened_till
    ≡ (ok filled_row, filled_till)
unfolding open_shift apply_cash_mutation open_books on_books ensure_current_calendar update_shift
    execute_post validate ◌+ℤ◌
fill_runs = refl

filled_in : map CashShift.cash_in filled_till.shifts ≡ pos 200 ∷ []
unfolding open_shift apply_cash_mutation open_books on_books ensure_current_calendar update_shift
    execute_post validate ◌+ℤ◌
filled_in = refl

abbrev closed_till : Till
closed_till = (close_shift (some (pos 950)) 9 3 6 clock_of opened_till).1

abbrev closed_row : Option CashShift
closed_row = find_first (has_shift_id 70) closed_till.shifts

close_shift_runs :
    close_shift (some (pos 950)) 9 3 6 clock_of opened_till ≡ (ok closed_row, closed_till)
unfolding open_shift close_shift open_books on_books ensure_current_calendar update_shift post_gap
    execute_post validate ◌+ℤ◌ ◌-ℤ◌
close_shift_runs = refl

closed_short : map CashShift.difference closed_till.shifts ≡ negsuc 49 ∷ []
unfolding open_shift close_shift open_books on_books ensure_current_calendar update_shift post_gap
    execute_post validate ◌+ℤ◌ ◌-ℤ◌
closed_short = refl

empty-IsOrderly : IsOrderly empty_till
empty-IsOrderly = (λ w u c. omega arith, λ side c a p. refl)

abbrev day : ShiftSteps empty_till closed_till
day =
    then_request empty_till opened_till closed_till
      (then_request empty_till empty_till opened_till (no_request empty_till)
        (opening_one open_dto 9 3 empty_till opened_till first_shift open_runs))
      (closing_one (some (pos 950)) 9 3 6 clock_of opened_till closed_till closed_row
        close_shift_runs)

steps-IsOrderly_example : IsOrderly closed_till
steps-IsOrderly_example = steps-IsOrderly empty_till closed_till day empty-IsOrderly

opened-IsOrderly : IsOrderly opened_till
opened-IsOrderly =
    steps-IsOrderly empty_till opened_till
      (then_request empty_till empty_till opened_till (no_request empty_till)
        (opening_one open_dto 9 3 empty_till opened_till first_shift open_runs))
      empty-IsOrderly

apply_cash_mutation_ok_example :
    IsReconciled filled_till.books
    × (c : CashShift) × (find_first (is_open_shift 6 9 3) opened_till.shifts ≡ some c)
    × IsMovement c move_dto 9 3 6 into_drawer clock_of opened_till filled_till
    × (after : CashShift) × (find_first (is_open_shift 6 9 3) filled_till.shifts ≡ some after)
    × (after ≡ record c { cash_in = c.cash_in +ℤ pos 200; row_version = suc c.row_version })
apply_cash_mutation_ok_example =
    apply_cash_mutation_ok move_dto 9 3 6 into_drawer clock_of opened_till filled_till filled_row
      fill_runs opened-IsOrderly.1

close_shift_ok_example :
    IsReconciled closed_till.books
    × (c : CashShift) × (find_first (is_open_shift 6 9 3) opened_till.shifts ≡ some c)
    × IsClosing c (some (pos 950)) 9 3 6 clock_of opened_till closed_till
close_shift_ok_example =
    close_shift_ok (some (pos 950)) 9 3 6 clock_of opened_till closed_till closed_row
      close_shift_runs opened-IsOrderly.1

abbrev tills : Store Till (Option CashShift)
tills = record { business = opened_till; records = []; next_id = 1 }

cash_mutation-IsOrderly_example :
    IsOrderly
      (cash_mutation none (λ b. b) move_dto 9 3 6 into_drawer (some 5) 77 clock_of tills).1.business
cash_mutation-IsOrderly_example =
    cash_mutation-IsOrderly none (λ b. b) move_dto 9 3 6 into_drawer (some 5) 77 clock_of tills
      opened-IsOrderly
