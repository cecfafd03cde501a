-- ===== src/Sales/CashShift/Closing.antt =====
-- The whole of `closeShift` (backend/src/modules/sales/services/cash-shift.service.ts).
use stock_flow.Sales.CashShift.Difference.{
  post_difference_ok, difference-IsReconciled, IsDifferencePosted,
}
use stock_flow.Crm.CreditLedger.{balance}
use stock_flow.Sales.CashShift.Accounts.{resolve_drawer_account_ok, IsDrawer}
use stock_flow.Tx.{
  ◌>>◌, ◌>>=◌, transaction_inv, pure, or_throw_found, or_throw, ok, not_found, bind_inv,
}
use stock_flow.Sales.CashShift.Operations.{
  update_shift, post_difference, open_books, next_shift, is_shift_version, expected_of,
  closed_shift, close_shift, close_found, actual_of,
}
use stock_flow.Finance.Tables.{Ledger}
use stock_flow.Sales.CashShift.Steps.{update_shift_ok, opened-IsReconciled, open_books_ok}
use stock_flow.Finance.GlEngine.Journal.{IsReconciled}
use stock_flow.Finance.Calendar.{Clock}
use stock_flow.Sales.CashShift.{
  shift_closed, Till, sum_refunds, resolve_drawer_account, reads, is_open_shift, is_cash_refund,
  CashShift,
}
use stock_flow.Prelude.Int.{◌+ℤ◌, ◌-ℤ◌, ℤ}
use stock_flow.Prelude.{
  ◌==◌, ◌&&◌, suc, ◌≡◌, ◌∙◌, ℕ, update_many, sym, subst, some, refl, none, find_first, ap, Option,
}

-- What is there: the counted balance if it is given, and else what is expected.
abbrev pub IsActual : Option ℤ → ℤ → ℤ → Type 0
IsActual none expected actual = actual ≡ expected
IsActual (some balance) expected actual = actual ≡ balance

actual_of_ok :
    (counted : Option ℤ) (expected : ℤ) → IsActual counted expected (actual_of counted expected)
actual_of_ok none expected = refl
actual_of_ok (some balance) expected = refl

-- What a close of the shift `c` has done. What is expected and what is there are written to the row,
-- with their difference, and the difference is posted.
pub record IsClosing (c : CashShift) (counted : Option ℤ) (user company warehouse : ℕ)
    (clock : Clock) (s t : Till) : Type 0 where
  pub expected : ℤ
  pub is_expected :
      expected
      ≡ c.opening_balance
        +ℤ c.cash_sales
        +ℤ c.cash_in
        -ℤ c.cash_out
        -ℤ sum_refunds (is_cash_refund company c.id) s.refunds
  pub actual : ℤ
  pub is_actual : IsActual counted expected actual
  pub shifts :
      t.shifts
      ≡ update_many
          (λ y. y.id == c.id && y.company == company && y.row_version == c.row_version)
          (λ y. record y {
            status = shift_closed;
            closed_at = some clock.now;
            closing_balance = actual;
            expected_closing = expected;
            difference = actual -ℤ expected;
            row_version = suc y.row_version;
          })
          s.shifts
  pub drawer : ℕ
  pub is_drawer : IsDrawer company warehouse c.currency s drawer
  pub period : ℕ
  pub between : Till
  pub entries : between.books.entries ≡ s.books.entries
  pub balances : between.books.balances ≡ s.books.balances
  pub difference :
      IsDifferencePosted expected actual s.books.accounts company period clock.now c.id user drawer
        between t

module _ (c : CashShift) (counted : Option ℤ) (user company warehouse : ℕ) (clock : Clock) where
  close_found_ok :
      (s t : Till) (row : Option CashShift)
      → close_found c counted user company warehouse clock s ≡ (ok row, t)
      → IsReconciled s.books
      → IsReconciled t.books × IsClosing c counted user company warehouse clock s t
  unfolding close_found
  close_found_ok s t row e h =
      let expected = expected_of c (sum_refunds (is_cash_refund company c.id) s.refunds) in
      let actual = actual_of counted expected in
      let columns = closed_shift actual expected clock.now in
      let gap = actual -ℤ expected in
      let written = update_shift c.id columns company c.row_version in
      let posted_with =
        λ (drawer period : ℕ). post_difference gap company period clock.now c.id user drawer in
      let (drawer, u, found, rest) =
        bind_inv (reads (resolve_drawer_account company warehouse c.currency))
          (λ drawer. open_books company clock >>= λ period.
            written >>= λ updated. posted_with drawer period >> pure updated)
          s t row e in
      let here : s ≡ u = ap (λ p. p.1) found in
      let (period, v, opened, rest') =
        bind_inv (open_books company clock)
          (λ period. written >>= λ updated. posted_with drawer period >> pure updated) u t row
          rest in
      let calendar =
        open_books_ok company clock s v period
          (subst (λ w. open_books company clock w ≡ (ok period, v)) (sym here) opened) in
      let (updated, w, saved, rest'') =
        bind_inv written (λ updated. posted_with drawer period >> pure updated) v t row rest' in
      let stored = update_shift_ok c.id columns company c.row_version v w updated saved in
      let (x, y, ended, last) =
        bind_inv (posted_with drawer period) (λ _. pure updated) w t row rest'' in
      let stop : y ≡ t = ap (λ p. p.1) last in
      let books : v.books ≡ w.books = ap Till.books stored in
      let accounts : w.books.accounts ≡ s.books.accounts =
        ap Ledger.accounts (sym books) ∙ calendar.accounts in
      let posted_gap =
        subst
          (λ chart.
            IsDifferencePosted expected actual chart company period clock.now c.id user drawer w t)
          accounts
          (post_difference_ok expected actual company period clock.now c.id user drawer w t x
            (subst (λ z. posted_with drawer period w ≡ (ok x, z)) stop ended)) in
      let before : IsReconciled w.books =
        subst IsReconciled books (opened-IsReconciled s v calendar h) in
      let (kept, balanced) =
        difference-IsReconciled expected actual s.books.accounts company period clock.now c.id user
          drawer w t posted_gap before in
      (
        balanced,
        record {
          expected = expected;
          is_expected = refl;
          actual = actual;
          is_actual = actual_of_ok counted expected;
          shifts =
              kept
              ∙ sym (ap Till.shifts stored)
              ∙ ap (update_many (is_shift_version c.id company c.row_version) (next_shift columns))
                  calendar.shifts;
          drawer = drawer;
          is_drawer =
              resolve_drawer_account_ok company warehouse c.currency s drawer (ap (λ p. p.0) found);
          period = period;
          between = w;
          entries = ap Ledger.entries (sym books) ∙ calendar.entries;
          balances = ap Ledger.balances (sym books) ∙ calendar.balances;
          difference = posted_gap;
        },
      )

-- A `closeShift` that succeeds keeps the ledger reconciled. It writes to the shift that is open for
-- the warehouse and the cashier, with the next row version, the status CLOSED, the time, what is
-- expected (the opening balance with cash sales and cash put in, less cash taken out and the cash
-- parts of completed partial refunds of its sales), what is there (the counted balance if it is given,
-- else what is expected) and what is there less what is expected. Where the two are equal nothing is
-- posted. A shortage is posted by one entry that debits the company's live account 6200 and credits
-- the drawer, an overage by one that debits the drawer and credits the live account 4210; the drawer
-- is the ASSET account of the only live register of the warehouse or the live account 1010.
pub close_shift_ok :
    (counted : Option ℤ) (user company warehouse : ℕ) (clock : Clock) (s t : Till)
    (row : Option CashShift)
    → close_shift counted user company warehouse clock s ≡ (ok row, t)
    → IsReconciled s.books
    → IsReconciled t.books
      × (c : CashShift) × (find_first (is_open_shift warehouse user company) s.shifts ≡ some c)
      × IsClosing c counted user company warehouse clock s t
unfolding close_shift
close_shift_ok counted user company warehouse clock s t row e h =
    let q = is_open_shift warehouse user company in
    let closing_it = λ (c : CashShift). close_found c counted user company warehouse clock in
    let (c, u, found, rest) =
      bind_inv (or_throw (find_first q s.shifts) not_found) closing_it s t row (
        transaction_inv
          (λ (w : Till). (or_throw (find_first q w.shifts) not_found >>= closing_it) w) s t row
          e) in
    let (there, here) = or_throw_found (find_first q s.shifts) not_found s u c found in
    let (balanced, done) =
      close_found_ok c counted user company warehouse clock s t row
        (subst (λ w. closing_it c w ≡ (ok row, t)) (sym here) rest) h in
    (balanced, c, there, done)
