-- ===== src/Sales/CashShift/Movements.antt =====
-- `cashIn` and `cashOut` of `CashShiftService`
-- (backend/src/modules/sales/services/cash-shift.service.ts), composed with idempotent runs.
use stock_flow.Suppliers.Payments.{two_lines}
use stock_flow.Finance.GlEngine.{execute_post}
use stock_flow.Sales.CashShift.Operations.{
  update_shift, shift_entry, shift_audit, open_books, catch_unique,
}
use stock_flow.Tx.{◌>>◌, ◌>>=◌, throw_if, pure, or_throw, not_found, gets, bad_request, Tx}
use stock_flow.Idempotency.{run_with_idempotency, Store}
use stock_flow.Prelude.{ℕ, find_first, Option, List}
use stock_flow.Finance.Tables.{JournalLine}
use stock_flow.Finance.Calendar.{Clock}
use stock_flow.Sales.CashShift.{
  resolve_drawer_account, resolve_counterpart_account, reads, on_books, moved_out, moved_in,
  is_open_shift, Till, ShiftAction, CashShift,
}
use stock_flow.Prelude.Int.{leb_ℤ, ◌+ℤ◌, ℤ, pos}

pub data MovementKind : Type 0 where
  into_drawer out_of_drawer : MovementKind

pub record CashInOutDto : Type 0 where
  pub amount : ℤ
  pub counterpart_account : Option ℕ
  pub client_operation_id : Option ℕ

abbrev pub current_of : MovementKind → CashShift → ℤ
current_of into_drawer c = c.cash_in
current_of out_of_drawer c = c.cash_out

-- [kind]: current.add(amount)
abbrev pub moved : MovementKind → ℤ → CashShift → CashShift
moved into_drawer sum c = record c { cash_in = sum }
moved out_of_drawer sum c = record c { cash_out = sum }

abbrev pub movement_lines : MovementKind → ℕ → ℕ → ℤ → List JournalLine
movement_lines into_drawer drawer counterpart amount = two_lines drawer counterpart amount
movement_lines out_of_drawer drawer counterpart amount = two_lines counterpart drawer amount

abbrev pub movement_action : MovementKind → ShiftAction
movement_action into_drawer = moved_in
movement_action out_of_drawer = moved_out

abbrev pub endpoint_of : MovementKind → ℕ
endpoint_of into_drawer = 3
endpoint_of out_of_drawer = 4

-- The drawer and the counterpart of a movement, resolved before anything is written.
unfoldable pub prepare_movement : CashShift → CashInOutDto → ℕ → ℕ → Tx Till (ℕ × ℕ)
prepare_movement c dto company warehouse = do
  throw_if (leb_ℤ dto.amount (pos 0)) bad_request
  drawer ← reads (resolve_drawer_account company warehouse c.currency)
  counterpart ← reads (resolve_counterpart_account company dto.counterpart_account drawer)
  pure (drawer, counterpart)

-- `applyCashMutation` of the open shift.
unfoldable pub move_cash :
    CashShift → CashInOutDto → ℕ → ℕ → ℕ → MovementKind → Clock → Tx Till (Option CashShift)
unfolding prepare_movement
move_cash c dto user company warehouse kind clock = do
  accounts ← prepare_movement c dto company warehouse
  period ← open_books company clock
  updated ← update_shift c.id (moved kind (current_of kind c +ℤ dto.amount)) company c.row_version
  entry ← catch_unique (
      on_books (
        execute_post (
          shift_entry company period clock.now c.id user dto.client_operation_id
            (movement_lines kind accounts.0 accounts.1 dto.amount))))
  shift_audit (movement_action kind) company user c.id entry
  pure updated

-- `applyCashMutation`
unfoldable pub apply_cash_mutation :
    CashInOutDto → ℕ → ℕ → ℕ → MovementKind → Clock → Tx Till (Option CashShift)
unfolding move_cash
apply_cash_mutation dto user company warehouse kind clock = do
  found ← gets λ s. find_first (is_open_shift warehouse user company) s.shifts
  c ← or_throw found not_found
  move_cash c dto user company warehouse kind clock

module _ (pending_body : Option CashShift) (to_json : Option CashShift → Option CashShift) where
  -- `cashMutation`: `cashIn` and `cashOut`
  unfoldable pub cash_mutation :
      CashInOutDto
      → ℕ
      → ℕ
      → ℕ
      → MovementKind
      → Option ℕ
      → ℕ
      → Clock
      → Tx (Store Till (Option CashShift)) (Option CashShift)
  cash_mutation dto user company warehouse kind key request_hash clock = do
    answer ←
        run_with_idempotency pending_body to_json key company (endpoint_of kind) request_hash
          clock.now 200 (apply_cash_mutation dto user company warehouse kind clock)
    pure answer.1
