-- ===== src/Finance/Calendar/Outcome.antt =====
-- What the operations of `FiscalCalendarService` and `FinancialPeriodsService`
-- (backend/src/modules/finance/services) do to the periods, whatever their outcome.
use stock_flow.Tx.{transaction}
use stock_flow.Finance.PostingValidation.{is_period}
use stock_flow.Finance.Tables.{Ledger, period_updated, period_closed, LedgerAction, FinancialPeriod}
use stock_flow.Finance.Calendar.{
  is_closing, is_closed, is_month, month_row, period_row, ensure_current_calendar, create_period,
  is_year, add_period, update_row, write_period, update_period, close_period, with_notes,
  same_relations, closed_at_time, closed_by_user, next_version, has_period_id, is_period_version,
  Clock, CreateFinancialPeriodDto,
}
use stock_flow.Finance.Calendar.Rows.{
  unchanged, period_added, period_written, changed_twice, PeriodChange, IsPeriodWrite,
}
use stock_flow.Prelude.{
  ◌∷◌, ◌==◌, ◌++◌, true, false, [], ◌≡◌, ℕ, update_many, sym, suc, subst, some, refl, none, inr,
  inl, find_first, count_where, Option, Option-cases, Bool-cases, arith,
}

pub ensure_current_calendar-changes :
    (company : ℕ) (clock : Clock) (s : Ledger)
    → PeriodChange s.periods (ensure_current_calendar company clock s).1.periods
unfolding ensure_current_calendar
ensure_current_calendar-changes company clock s =
    let after = (ensure_current_calendar company clock s).1.periods in
    let added =
      λ (id : ℕ) (free : find_first (is_month company clock.year clock.month) s.periods ≡ none)
          (same : s.periods ++ (month_row company clock id ∷ []) ≡ after).
        subst (PeriodChange s.periods) same (period_added s.periods (month_row company clock id)) in
    elim (Option-cases (find_first (is_month company clock.year clock.month) s.periods)) [
      | inl free ↦ elim (Option-cases (find_first (is_year company clock.year) s.fiscal_years)) [
        | inl no_year ↦ added (suc s.next_id) free (ground (arith, no_year, free))
        | inr (y, there) ↦ added s.next_id free (ground (arith, there, free))
      ]
      | inr (p, old) ↦
          let same : s.periods ≡ after =
            elim (Option-cases (find_first (is_year company clock.year) s.fiscal_years)) [
              | inl no_year ↦ ground (arith, no_year, old)
              | inr (y, there) ↦ ground (arith, there, old)
            ] in
          subst (PeriodChange s.periods) same (unchanged s.periods)
    ]

pub ensure_current_calendar-entries :
    (company : ℕ) (clock : Clock) (s : Ledger)
    → ((ensure_current_calendar company clock s).1.entries ≡ s.entries)
      × ((ensure_current_calendar company clock s).1.balances ≡ s.balances)
      × ((ensure_current_calendar company clock s).1.accounts ≡ s.accounts)
unfolding ensure_current_calendar
ensure_current_calendar-entries company clock s =
    elim (Option-cases (find_first (is_month company clock.year clock.month) s.periods)) [
      | inl free ↦ elim (Option-cases (find_first (is_year company clock.year) s.fiscal_years)) [
        | inl no_year ↦ (
          ground (arith, no_year, free),
          ground (arith, no_year, free),
          ground (arith, no_year, free),
        )
        | inr (y, there) ↦
            (ground (arith, there, free), ground (arith, there, free), ground (arith, there, free))
      ]
      | inr (p, old) ↦
          elim (Option-cases (find_first (is_year company clock.year) s.fiscal_years)) [
            | inl no_year ↦ (
              ground (arith, no_year, old),
              ground (arith, no_year, old),
              ground (arith, no_year, old),
            )
            | inr (y, there) ↦
                (ground (arith, there, old), ground (arith, there, old), ground (arith, there, old))
          ]
    ]

pub create_period-changes :
    (dto : CreateFinancialPeriodDto) (company user : ℕ) (s : Ledger)
    → PeriodChange s.periods (create_period dto company user s).1.periods
unfolding create_period add_period transaction
create_period-changes dto company user s =
    let after = (create_period dto company user s).1.periods in
    elim (Option-cases (find_first (is_month company dto.year dto.month) s.periods)) [
      | inl free ↦
          let row = period_row dto company user s.next_id in
          let same : s.periods ++ (row ∷ []) ≡ after = ground (arith, free) in
          subst (PeriodChange s.periods) same (period_added s.periods row)
      | inr (p, taken) ↦
          let same : s.periods ≡ after = ground (arith, taken) in
          subst (PeriodChange s.periods) same (unchanged s.periods)
    ]

module _ (action : LedgerAction) (columns relations : FinancialPeriod → FinancialPeriod)
    (company user : ℕ) (before : FinancialPeriod) where
  -- Where the guard finds the row, the two writes; else nothing.
  pub write_period_lost :
      (s : Ledger)
      → (count_where (is_period_version before.id company before.row_version) s.periods == 0) ≡ true
      → (transaction (write_period action columns relations company user before) s).1 ≡ s
  unfolding transaction write_period update_row
  write_period_lost s e = ground (arith, e)

  pub write_period_ok :
      (s : Ledger)
      → (count_where (is_period_version before.id company before.row_version) s.periods == 0)
        ≡ false
      → (transaction (write_period action columns relations company user before) s).1.periods
        ≡ update_many (has_period_id before.id) relations (
            update_many
              (is_period_version before.id company before.row_version)
              (λ p. next_version (columns p))
              s.periods)
  unfolding transaction write_period update_row
  write_period_ok s e = ground (arith, e)

  pub write_period-changes :
      (s : Ledger)
      → IsPeriodWrite (λ p. next_version (columns p))
      → IsPeriodWrite relations
      → PeriodChange s.periods
          (transaction (write_period action columns relations company user before) s).1.periods
  write_period-changes s first second =
      let q = is_period_version before.id company before.row_version in
      let once = update_many q (λ p. next_version (columns p)) s.periods in
      elim (Bool-cases (count_where q s.periods == 0)) [
        | inl lost ↦
            subst (λ (l : Ledger). PeriodChange s.periods l.periods)
              (sym (write_period_lost s lost)) (unchanged s.periods)
        | inr more ↦ subst (PeriodChange s.periods) (sym (write_period_ok s more)) (
            changed_twice s.periods once (update_many (has_period_id before.id) relations once)
              (period_written s.periods q (λ p. next_version (columns p)) first)
              (period_written once (has_period_id before.id) relations second))
      ]

abbrev plain_write : IsPeriodWrite same_relations
plain_write = record {
  same_id = λ y. refl;
  same_company = λ y. refl;
  same_year = λ y. refl;
  same_month = λ y. refl;
  still_closed = λ y h. h;
}

notes_write : (notes : Option ℕ) → IsPeriodWrite (λ p. next_version (with_notes notes p))
notes_write none = record {
  same_id = λ y. refl;
  same_company = λ y. refl;
  same_year = λ y. refl;
  same_month = λ y. refl;
  still_closed = λ y h. h;
}
notes_write (some text) = record {
  same_id = λ y. refl;
  same_company = λ y. refl;
  same_year = λ y. refl;
  same_month = λ y. refl;
  still_closed = λ y h. h;
}

pub update_period-changes :
    (id : ℕ) (notes : Option ℕ) (company user : ℕ) (s : Ledger)
    → PeriodChange s.periods (update_period id notes company user s).1.periods
unfolding update_period
update_period-changes id notes company user s =
    elim (Option-cases (find_first (is_period id company) s.periods)) [
      | inl lost ↦ rw lost (unchanged s.periods)
      | inr (p, found) ↦ rw found (
          write_period-changes period_updated (with_notes notes) same_relations company user p s
            (notes_write notes) plain_write)
    ]

module _ (id company user now : ℕ) (s : Ledger) where
  pub close_period-changes : PeriodChange s.periods (close_period id company user now s).1.periods
  unfolding close_period
  close_period-changes = elim (Option-cases (find_first (is_period id company) s.periods)) [
    | inl lost ↦ rw lost (unchanged s.periods)
    | inr (p, found) ↦ elim (Bool-cases (is_closed p.status)) [
      | inl already ↦ rw (found, already) (unchanged s.periods)
      | inr yet ↦ elim (Bool-cases (is_closing p.status)) [
        | inl busy ↦ rw (found, yet, busy) (unchanged s.periods)
        | inr free ↦
            rw (found, yet, free)
              (write_period-changes period_closed (closed_at_time now) (closed_by_user user) company
                user p s
                (record {
                  same_id = λ y. refl;
                  same_company = λ y. refl;
                  same_year = λ y. refl;
                  same_month = λ y. refl;
                  still_closed = λ y h. refl;
                })
                (record {
                  same_id = λ y. refl;
                  same_company = λ y. refl;
                  same_year = λ y. refl;
                  same_month = λ y. refl;
                  still_closed = λ y h. h;
                }))
      ]
    ]
  ]
