-- ===== src/Finance/Calendar/Rows.antt =====
-- How the periods of a ledger change: the abstract view of the accounting calendar
-- (backend/src/modules/finance/services/fiscal-calendar.service.ts and financial-periods.service.ts).
use stock_flow.Finance.Tables.{FinancialPeriod, closed}
use stock_flow.Finance.PostingValidation.{is_period}
use stock_flow.Finance.Calendar.{is_month}
use stock_flow.Prelude.{
  find_first-update_again, find_first-append_found, ◌≡◌, ◌∷◌, ◌++◌, ℕ, update_many, some, refl,
  find_first, [], List, Bool,
}

-- A write that keeps the key columns of a period, and never leaves CLOSED.
pub record IsPeriodWrite (f : FinancialPeriod → FinancialPeriod) : Type 0 where
  pub same_id : (y : FinancialPeriod) → (f y).id ≡ y.id
  pub same_company : (y : FinancialPeriod) → (f y).company ≡ y.company
  pub same_year : (y : FinancialPeriod) → (f y).year ≡ y.year
  pub same_month : (y : FinancialPeriod) → (f y).month ≡ y.month
  pub still_closed : (y : FinancialPeriod) → y.status ≡ closed → (f y).status ≡ closed

pub data PeriodChange : List FinancialPeriod → List FinancialPeriod → Type 0 where
  unchanged : (xs : List FinancialPeriod) → PeriodChange xs xs
  period_added :
      (xs : List FinancialPeriod) (p : FinancialPeriod) → PeriodChange xs (xs ++ (p ∷ []))
  period_written :
      (xs : List FinancialPeriod) (q : FinancialPeriod → Bool)
      (f : FinancialPeriod → FinancialPeriod)
      → IsPeriodWrite f
      → PeriodChange xs (update_many q f xs)
  changed_twice :
      (xs ys zs : List FinancialPeriod)
      → PeriodChange xs ys
      → PeriodChange ys zs
      → PeriodChange xs zs

-- The period is there, and it is CLOSED.
abbrev pub IsClosed : ℕ → ℕ → List FinancialPeriod → Type 0
IsClosed id company xs =
    (p : FinancialPeriod) × (find_first (is_period id company) xs ≡ some p) × (p.status ≡ closed)

pub change-IsClosed :
    (id company : ℕ) (xs ys : List FinancialPeriod)
    → PeriodChange xs ys
    → IsClosed id company xs
    → IsClosed id company ys
change-IsClosed id company xs ys (unchanged _) h = h
change-IsClosed id company xs ys (period_added _ p) (row, found, done) =
    (row, find_first-append_found (is_period id company) xs (p ∷ []) row found, done)
change-IsClosed id company xs ys (period_written _ q f kept) (row, found, done) =
    find_first-update_again (λ y. y.status ≡ closed) q (is_period id company) f xs row
      (λ y. rw (kept.same_id y, kept.same_company y) refl) kept.still_closed found done
change-IsClosed id company xs zs (changed_twice _ ys _ c d) h =
    change-IsClosed id company ys zs d (change-IsClosed id company xs ys c h)

-- The month has a period.
abbrev pub HasMonth : ℕ → ℕ → ℕ → List FinancialPeriod → Type 0
HasMonth company year month xs =
    (p : FinancialPeriod) × (find_first (is_month company year month) xs ≡ some p)

pub change-HasMonth :
    (company year month : ℕ) (xs ys : List FinancialPeriod)
    → PeriodChange xs ys
    → HasMonth company year month xs
    → HasMonth company year month ys
change-HasMonth company year month xs ys (unchanged _) h = h
change-HasMonth company year month xs ys (period_added _ p) (row, found) =
    (row, find_first-append_found (is_month company year month) xs (p ∷ []) row found)
change-HasMonth company year month xs ys (period_written _ q f kept) (row, found) =
    let (again, there, _) =
      find_first-update_again (λ y. Unit {0}) q (is_month company year month) f xs row
        (λ y. rw (kept.same_company y, kept.same_year y, kept.same_month y) refl) (λ y h. tt) found
        tt in
    (again, there)
change-HasMonth company year month xs zs (changed_twice _ ys _ c d) h =
    change-HasMonth company year month ys zs d (change-HasMonth company year month xs ys c h)
