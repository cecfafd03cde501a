-- ===== src/Sales/CashShift/Moved.antt =====
-- The whole of `cashIn` and `cashOut`
-- (backend/src/modules/sales/services/cash-shift.service.ts), alone and under a key.
use stock_flow.Sales.CashShift.Raised.{
  raised_shift, movement_posted, moved-IsRaised, IsRaisedShift, IsRaised, IsMovementPosted,
}
use stock_flow.Sales.CashShift.Accounts.{
  resolve_drawer_account_ok, resolve_counterpart_account_ok, IsNamedCounterpart, IsDrawer,
}
use stock_flow.Sales.CashShift.{
  CashShift, Till, resolve_drawer_account, resolve_counterpart_account, on_books, is_open_shift,
}
use stock_flow.Sales.CashShift.Operations.{
  update_shift, shift_entry, shift_audit, open_books, next_shift, is_shift_version, catch_unique,
}
use stock_flow.Tx.{
  Result-cases, Result, ◌>>◌, ◌>>=◌, run-cases, pure, or_throw_found, or_throw, ok, not_found, err,
  bind_inv, Tx,
}
use stock_flow.Finance.GlEngine.{execute_post, PostJournalEntryInput}
use stock_flow.Finance.Tables.{Ledger}
use stock_flow.Sales.CashShift.Steps.{
  with_audit-IsShiftPosted, update_shift_ok, posted-IsReconciled, opened-IsReconciled,
  open_books_ok, on_books-execute_post, IsShiftPosted,
}
use stock_flow.Finance.GlEngine.Journal.{IsReconciled}
use stock_flow.Finance.Calendar.{Clock}
use stock_flow.Sales.CashShift.Movements.{
  current_of, prepare_movement, movement_lines, movement_action, moved, move_cash,
  apply_cash_mutation, MovementKind, CashInOutDto,
}
use stock_flow.Prelude.Int.{◌+ℤ◌, ◌<ℤ◌, pos, leb_ℤ}
use stock_flow.Prelude.{
  Bool-cases, ℕ, ◌≡◌, ◌∙◌, update_many, sym, subst, some, inr, inl, find_first, ap, Option, arith,
}

catch_unique_ok :
    {A : Type 0} (m : Tx Till A) (s t : Till) (a : A)
    → catch_unique m s ≡ (ok a, t)
    → m s ≡ (ok a, t)
catch_unique_ok {A} m s t a e = elim (run-cases m s) [
  | inl (b, u, q) ↦
      let good : catch_unique (λ w. (ok b, u)) s ≡ (ok a, t) = sym (same (ok b, u) q) ∙ e in
      q ∙ good
  | inr (x, u, q) ↦
      let stuck : catch_unique {A = A} (λ w. (err x, u)) s ≡ (ok a, t) =
        sym (same (err x, u) q) ∙ e in
      absurd (cc)
]
  where
    same : (p : Result A × Till) → m s ≡ p → catch_unique m s ≡ catch_unique (λ w. p) s
    same p q = ap (λ (r : Result A × Till). catch_unique (λ w. r) s) q

-- The amount is positive, and the two accounts are a drawer and a counterpart.
abbrev pub IsPreparedMovement : CashShift → CashInOutDto → ℕ → ℕ → Till → ℕ → ℕ → Type 0
IsPreparedMovement c dto company warehouse s drawer counterpart =
    (pos 0 <ℤ dto.amount)
    × IsDrawer company warehouse c.currency s drawer
    × IsNamedCounterpart company dto.counterpart_account drawer s counterpart

prepare_movement_ok :
    (c : CashShift) (dto : CashInOutDto) (company warehouse : ℕ) (s t : Till)
    (drawer counterpart : ℕ)
    → prepare_movement c dto company warehouse s ≡ (ok (drawer, counterpart), t)
    → (s ≡ t) × IsPreparedMovement c dto company warehouse s drawer counterpart
unfolding prepare_movement
prepare_movement_ok c dto company warehouse s t drawer counterpart e =
    elim (Bool-cases (leb_ℤ dto.amount (pos 0))) [
      | inl not_positive ↦ absurd (ground (arith, e, not_positive))
      | inr passed ↦ elim (Result-cases (resolve_drawer_account company warehouse c.currency s)) [
        | inr (x, lost) ↦ absurd (ground (arith, e, passed, lost))
        | inl (d, found) ↦
            elim (Result-cases (resolve_counterpart_account company dto.counterpart_account d s)) [
              | inr (x, lost) ↦ absurd (ground (arith, e, passed, found, lost))
              | inl (k, known) ↦
                  let pair : (d ≡ drawer) × (k ≡ counterpart) = (
                    ground (arith, e, passed, found, known),
                    ground (arith, e, passed, found, known),
                  ) in
                  (
                    ground (arith, e, passed, found, known),
                    (
                      ground (arith, passed),
                      resolve_drawer_account_ok company warehouse c.currency s drawer
                          (found ∙ ap ok pair.0),
                      resolve_counterpart_account_ok company dto.counterpart_account drawer s
                          counterpart (rw pair.0 at known ∙ ap ok pair.1),
                    ),
                  )
            ]
      ]
    ]

-- What a movement has done: one counter of the shift is raised, and one entry is posted between the
-- drawer and the counterpart.
pub record IsMovement (c : CashShift) (dto : CashInOutDto) (user company warehouse : ℕ)
    (kind : MovementKind) (clock : Clock) (s t : Till) : Type 0 where
  pub drawer : ℕ
  pub counterpart : ℕ
  pub prepared : IsPreparedMovement c dto company warehouse s drawer counterpart
  pub shifts : IsRaised kind c company dto.amount s.shifts t.shifts
  pub period : ℕ
  pub between : Till
  pub entries : between.books.entries ≡ s.books.entries
  pub balances : between.books.balances ≡ s.books.balances
  pub posting :
      IsMovementPosted kind drawer counterpart dto.amount
        (shift_entry company period clock.now c.id user dto.client_operation_id)
        between
        t

module _ (c : CashShift) (dto : CashInOutDto) (user company warehouse : ℕ) (kind : MovementKind)
    (clock : Clock) where
  abbrev input_of : ℕ → ℕ → ℕ → PostJournalEntryInput
  input_of drawer counterpart period =
      shift_entry company period clock.now c.id user dto.client_operation_id
        (movement_lines kind drawer counterpart dto.amount)

  abbrev noted : Option CashShift → ℕ → Tx Till (Option CashShift)
  noted updated entry = shift_audit (movement_action kind) company user c.id entry >> pure updated

  abbrev posting_of : ℕ → ℕ → ℕ → Option CashShift → Tx Till (Option CashShift)
  posting_of drawer counterpart period updated =
      catch_unique (on_books (execute_post (input_of drawer counterpart period))) >>= noted updated

  posting_of_ok :
      (drawer counterpart period : ℕ) (updated row : Option CashShift) (s t : Till)
      → posting_of drawer counterpart period updated s ≡ (ok row, t)
      → IsShiftPosted (input_of drawer counterpart period) s t
  posting_of_ok drawer counterpart period updated row s t e =
      let input = input_of drawer counterpart period in
      let (entry, u, done, last) =
        bind_inv (catch_unique (on_books (execute_post input))) (noted updated) s t row e in
      with_audit-IsShiftPosted input s u t (ap (λ p. p.1.books) last) (ap (λ p. p.1.shifts) last) (
        on_books-execute_post input s u entry
          (catch_unique_ok (on_books (execute_post input)) s u entry done))

  abbrev writing_of : ℕ → ℕ → ℕ → Tx Till (Option CashShift)
  writing_of drawer counterpart period =
      update_shift c.id (moved kind (current_of kind c +ℤ dto.amount)) company c.row_version
      >>= posting_of drawer counterpart period

  writing_of_ok :
      (drawer counterpart period : ℕ) (row : Option CashShift) (s t : Till)
      → writing_of drawer counterpart period s ≡ (ok row, t)
      → (w : Till) × (record s {
        shifts =
            update_many
              (is_shift_version c.id company c.row_version)
              (next_shift (moved kind (current_of kind c +ℤ dto.amount)))
              s.shifts;
      }
          ≡ w)
        × IsShiftPosted (input_of drawer counterpart period) w t
  writing_of_ok drawer counterpart period row s t e =
      let (updated, w, saved, rest) =
        bind_inv
          (update_shift c.id (moved kind (current_of kind c +ℤ dto.amount)) company c.row_version)
          (posting_of drawer counterpart period) s t row e in
      (
        w,
        update_shift_ok c.id (moved kind (current_of kind c +ℤ dto.amount)) company c.row_version s
            w updated saved,
        posting_of_ok drawer counterpart period updated row w t rest,
      )

  move_cash_ok :
      (s t : Till) (row : Option CashShift)
      → move_cash c dto user company warehouse kind clock s ≡ (ok row, t)
      → IsReconciled s.books
      → IsReconciled t.books × IsMovement c dto user company warehouse kind clock s t
  unfolding move_cash
  move_cash_ok s t row e h =
      let ((drawer, counterpart), u, found, rest) =
        bind_inv (prepare_movement c dto company warehouse)
          (λ accounts. open_books company clock >>= writing_of accounts.0 accounts.1) s t row e in
      let (here, prepared) =
        prepare_movement_ok c dto company warehouse s u drawer counterpart found in
      let (period, w, opened, last) =
        bind_inv (open_books company clock) (writing_of drawer counterpart) u t row rest in
      let calendar =
        open_books_ok company clock s w period
          (subst (λ z. open_books company clock z ≡ (ok period, w)) (sym here) opened) in
      let (z, stored, done) = writing_of_ok drawer counterpart period row w t last in
      let books : w.books ≡ z.books = ap Till.books stored in
      let before : IsReconciled z.books =
        subst IsReconciled books (opened-IsReconciled s w calendar h) in
      (
        posted-IsReconciled (input_of drawer counterpart period) z t done before,
        record {
          drawer = drawer;
          counterpart = counterpart;
          prepared = prepared;
          shifts = moved-IsRaised kind c company dto.amount s.shifts t.shifts (
              done.shifts
              ∙ sym (ap Till.shifts stored)
              ∙ ap
                  (update_many (is_shift_version c.id company c.row_version)
                    (next_shift (moved kind (current_of kind c +ℤ dto.amount))))
                  calendar.shifts);
          period = period;
          between = z;
          entries = ap Ledger.entries (sym books) ∙ calendar.entries;
          balances = ap Ledger.balances (sym books) ∙ calendar.balances;
          posting =
              movement_posted kind drawer counterpart dto.amount
                (shift_entry company period clock.now c.id user dto.client_operation_id) z t done;
        },
      )

-- A cash movement that succeeds keeps the ledger reconciled. Its amount is positive. The shift that is
-- open for the warehouse and the cashier stays open, with the next row version: cash that is put in
-- raises its cash in by the amount, cash that is taken out its cash out, and its other columns stay.
-- One entry of the amount is posted: cash in debits the drawer and credits the counterpart, cash out
-- the other way round. The drawer is the ASSET account of the only live register of the warehouse or
-- the live account 1010. The counterpart is the named account of the company, live, of type EXPENSE or
-- REVENUE, with neither of the codes 3000 and 3200, no cash or bank account, and not the drawer.
pub apply_cash_mutation_ok :
    (dto : CashInOutDto) (user company warehouse : ℕ) (kind : MovementKind) (clock : Clock)
    (s t : Till) (row : Option CashShift)
    → apply_cash_mutation dto user company warehouse kind clock s ≡ (ok row, t)
    → IsReconciled s.books
    → IsReconciled t.books
      × (c : CashShift) × (find_first (is_open_shift warehouse user company) s.shifts ≡ some c)
      × IsMovement c dto user company warehouse kind clock s t
      × (after : CashShift) × (find_first (is_open_shift warehouse user company) t.shifts
          ≡ some after)
      × IsRaisedShift kind c dto.amount after
unfolding apply_cash_mutation
apply_cash_mutation_ok dto user company warehouse kind clock s t row e h =
    let q = is_open_shift warehouse user company in
    let moving = λ (c : CashShift). move_cash c dto user company warehouse kind clock in
    let (c, u, found, rest) =
      bind_inv (or_throw (find_first q s.shifts) not_found) moving s t row e in
    let (there, here) = or_throw_found (find_first q s.shifts) not_found s u c found in
    let (balanced, done) =
      move_cash_ok c dto user company warehouse kind clock s t row
        (subst (λ w. moving c w ≡ (ok row, t)) (sym here) rest) h in
    let (after, still, raised) =
      raised_shift kind c user company warehouse dto.amount s.shifts t.shifts there done.shifts in
    (balanced, c, there, done, after, still, raised)
