-- ===== src/Sales/CashShift/Operations.antt =====
-- `openShift` and `closeShift` of `CashShiftService`
-- (backend/src/modules/sales/services/cash-shift.service.ts). One instant of the clock stands for the
-- calls of `new Date()` in a request.
use stock_flow.Finance.GlEngine.{execute_post, PostJournalEntryInput}
use stock_flow.Finance.Tables.{document, JournalLine}
use stock_flow.Prelude.Int.{ltb_ℤ, eq_ℤ, ◌+ℤ◌, ◌-ℤ◌, ℤ, pos}
use stock_flow.Sales.CashShift.{
  sum_refunds, shortage_code, shortage, shift_open, shift_closed, resolve_system_account,
  resolve_open_period, resolve_drawer_account, overage_code, overage, is_live_warehouse,
  is_cash_refund, ShiftAction, Till, CashShift, reads, on_books, is_open_shift,
}
use stock_flow.Finance.Calendar.{Clock, ensure_current_calendar}
use stock_flow.Suppliers.Payments.{two_lines}
use stock_flow.Suppliers.Checks.{base_currency, differs}
use stock_flow.Tx.{
  unprocessable_entity, unique_violation, out_of_fuel, ok, not_found, err, conflict, bad_request,
  ◌>>◌, ◌>>=◌, transaction, throw_if, pure, or_throw, modify, gets, Tx,
}
use stock_flow.Prelude.{
  ◌∷◌, ◌==◌, ◌++◌, ◌&&◌, ⊤, update_many, suc, some, not, none, is_none, if◌then◌else◌, find_first,
  count_where, any_where, [], Option, List, Bool, ℕ,
}

abbrev pub has_shift_id : ℕ → CashShift → Bool
has_shift_id id c = c.id == id

-- where { id, companyId }
abbrev pub is_shift_of : ℕ → ℕ → CashShift → Bool
is_shift_of id company c = c.id == id && c.company == company

-- where { id, companyId, rowVersion }
abbrev pub is_shift_version : ℕ → ℕ → ℕ → CashShift → Bool
is_shift_version id company version c =
    c.id == id && c.company == company && c.row_version == version

-- The columns of an update, with the next row version.
abbrev pub next_shift : (CashShift → CashShift) → CashShift → CashShift
next_shift columns c = record (columns c) { row_version = suc c.row_version }

-- `CashShiftRepository.update` with a row version; the service writes no relation.
unfoldable pub update_shift : ℕ → (CashShift → CashShift) → ℕ → ℕ → Tx Till (Option CashShift)
update_shift id columns company version = do
  count ← gets λ s. count_where (is_shift_version id company version) s.shifts
  modify λ s. record s {
    shifts = update_many (is_shift_version id company version) (next_shift columns) s.shifts;
  }
  existing ← gets λ s. find_first (is_shift_of id company) s.shifts
  throw_if (count == 0 && is_none existing) not_found
  throw_if (count == 0) conflict
  gets λ s. find_first (has_shift_id id) s.shifts

pub record OpenShiftDto : Type 0 where
  pub warehouse : ℕ
  pub opening_balance : ℤ
  pub currency : Option ℕ

abbrev pub shift_row : OpenShiftDto → ℕ → ℕ → ℕ → ℕ → CashShift
shift_row dto user company currency id = record {
  id = id;
  company = company;
  warehouse = dto.warehouse;
  cashier = user;
  status = shift_open;
  currency = currency;
  closed_at = none;
  opening_balance = dto.opening_balance;
  closing_balance = dto.opening_balance;
  cash_sales = pos 0;
  cash_in = pos 0;
  cash_out = pos 0;
  expected_closing = dto.opening_balance;
  difference = pos 0;
  row_version = 0;
}

-- The insert meets the partial unique index CashShift_open_shift_unique.
unfoldable pub insert_shift : CashShift → Tx Till CashShift
insert_shift c s =
    if any_where (is_open_shift c.warehouse c.cashier c.company) s.shifts
    then (err unique_violation, s)
    else (ok c, record s { shifts = s.shifts ++ (c ∷ []); next_id = suc s.next_id })

-- `catch` of P2002.
abbrev pub catch_unique : {A : Type 0} → Tx Till A → Tx Till A
catch_unique m s =
    let (r, t) = m s in
    elim r [
      | ok a ↦ (ok a, t)
      | err x ↦ (
        err (elim x [
          | unique_violation ↦ conflict
          | bad_request ↦ bad_request
          | not_found ↦ not_found
          | conflict ↦ conflict
          | unprocessable_entity ↦ unprocessable_entity
          | out_of_fuel ↦ out_of_fuel
        ]),
        t,
      )
    ]

-- `openShift`
unfoldable pub open_shift : OpenShiftDto → ℕ → ℕ → Tx Till CashShift
unfolding insert_shift transaction
open_shift dto user company = transaction (do
  existing ← gets λ s. find_first (is_open_shift dto.warehouse user company) s.shifts
  throw_if (not (is_none existing)) conflict
  warehouse ← gets λ s. find_first (is_live_warehouse dto.warehouse company) s.warehouses
  _ ← or_throw warehouse not_found
  currency ← gets λ s. base_currency company s.companies
  throw_if (differs dto.currency currency) bad_request
  catch_unique (λ s. insert_shift (shift_row dto user company currency s.next_id) s))

-- The calendar of the instant, and the open period that covers it.
unfoldable pub open_books : ℕ → Clock → Tx Till ℕ
open_books company clock = do
  _ ← on_books (ensure_current_calendar company clock)
  reads (resolve_open_period company clock.now)

-- referenceType CASH_SHIFT
abbrev pub shift_document : ℕ
shift_document = 3

abbrev pub shift_entry : ℕ → ℕ → ℕ → ℕ → ℕ → Option ℕ → List JournalLine → PostJournalEntryInput
shift_entry company period now shift user operation lines = record {
  company = company;
  period = period;
  entry_date = now;
  reference = document shift_document shift;
  created_by = user;
  client_operation_id = operation;
  lines = lines;
}

abbrev pub shift_audit : ShiftAction → ℕ → ℕ → ℕ → ℕ → Tx Till ⊤
shift_audit action company user shift entry = modify λ s. record s {
  audit =
      s.audit
      ++ (record {
        company = company;
        user = user;
        entity_id = shift;
        action = action;
        journal_entry = entry;
      }
          ∷ []);
}

-- What should be in the drawer: `expectedClosing`.
abbrev pub expected_of : CashShift → ℤ → ℤ
expected_of c refunds = c.opening_balance +ℤ c.cash_sales +ℤ c.cash_in -ℤ c.cash_out -ℤ refunds

abbrev pub actual_of : Option ℤ → ℤ → ℤ
actual_of none expected = expected
actual_of (some actual) expected = actual

abbrev pub closed_shift : ℤ → ℤ → ℕ → CashShift → CashShift
closed_shift actual expected now c = record c {
  status = shift_closed;
  closed_at = some now;
  closing_balance = actual;
  expected_closing = expected;
  difference = actual -ℤ expected;
}

-- The lines of a shortage, when the difference is negative, or of an overage.
abbrev pub gap_lines : ℤ → ℕ → ℕ → List JournalLine
gap_lines difference gap drawer =
    if ltb_ℤ difference (pos 0)
    then two_lines gap drawer (pos 0 -ℤ difference)
    else two_lines drawer gap difference

abbrev pub gap_code : ℤ → ℕ
gap_code difference = if ltb_ℤ difference (pos 0) then shortage_code else overage_code

abbrev pub gap_action : ℤ → ShiftAction
gap_action difference = if ltb_ℤ difference (pos 0) then shortage else overage

-- The entry of a difference.
unfoldable pub post_gap : ℤ → ℕ → ℕ → ℕ → ℕ → ℕ → ℕ → Tx Till ⊤
post_gap difference company period now shift user drawer = do
  gap ← reads (resolve_system_account company (gap_code difference))
  entry ← on_books (
      execute_post
        (shift_entry company period now shift user none (gap_lines difference gap drawer)))
  shift_audit (gap_action difference) company user shift entry

abbrev pub post_difference : ℤ → ℕ → ℕ → ℕ → ℕ → ℕ → ℕ → Tx Till ⊤
post_difference difference company period now shift user drawer s =
    if eq_ℤ difference (pos 0)
    then (ok tt, s)
    else post_gap difference company period now shift user drawer s

-- `closeShift` of the open shift.
unfoldable pub close_found : CashShift → Option ℤ → ℕ → ℕ → ℕ → Clock → Tx Till (Option CashShift)
unfolding update_shift open_books post_gap
close_found c counted user company warehouse clock = do
  refunds ← gets λ s. sum_refunds (is_cash_refund company c.id) s.refunds
  let expected = expected_of c refunds
  let actual = actual_of counted expected
  drawer ← reads (resolve_drawer_account company warehouse c.currency)
  period ← open_books company clock
  updated ← update_shift c.id (closed_shift actual expected clock.now) company c.row_version
  post_difference (actual -ℤ expected) company period clock.now c.id user drawer
  pure updated

-- `closeShift`, with `actualClosingBalance` as an argument.
unfoldable pub close_shift : Option ℤ → ℕ → ℕ → ℕ → Clock → Tx Till (Option CashShift)
unfolding close_found transaction
close_shift counted user company warehouse clock = transaction (do
  found ← gets λ s. find_first (is_open_shift warehouse user company) s.shifts
  c ← or_throw found not_found
  close_found c counted user company warehouse clock)
