-- ===== src/Sales/CashShift/Single.antt =====
-- One open shift for a warehouse and a cashier, across `openShift`, `closeShift` and cash movements
-- (backend/src/modules/sales/services/cash-shift.service.ts).
use stock_flow.Sales.CashShift.Raised.{IsRaised}
use stock_flow.Idempotency.Business.{run_keeps}
use stock_flow.Idempotency.{run_with_idempotency, Store}
use stock_flow.Prelude.Int.{◌+ℤ◌, ℤ}
use stock_flow.Tx.{run-cases, pure, bind_ok, bind_err, transaction, ok}
use stock_flow.Sales.CashShift.Closing.{close_shift_ok}
use stock_flow.Suppliers.Checks.{differs, base_currency}
use stock_flow.Sales.CashShift.Moved.{apply_cash_mutation_ok}
use stock_flow.Sales.CashShift.Operations.{
  shift_row, open_shift, next_shift, is_shift_version, insert_shift, closed_shift, close_shift,
  OpenShiftDto,
}
use stock_flow.Finance.GlEngine.Journal.{IsReconciled}
use stock_flow.Finance.Calendar.{Clock}
use stock_flow.Sales.CashShift.{is_open_shift, is_live_warehouse, Till, CashShift}
use stock_flow.Sales.CashShift.Movements.{
  moved, current_of, endpoint_of, cash_mutation, out_of_drawer, into_drawer, apply_cash_mutation,
  MovementKind, CashInOutDto,
}
use stock_flow.Prelude.{
  ◌≤◌, ◌≡◌, ◌∷◌, ◌∙◌, ◌++◌, ℕ, update_many, true, sym, subst, none, inr, inl, find_first,
  count_where-update_le, count_where-none, count_where-append_one, count_where, ap, any_where, [],
  Option, List, Bool, arith, Bool-cases, Option-cases,
}

abbrev pub IsSingle : List CashShift → Type 0
IsSingle xs =
    (warehouse cashier company : ℕ) → count_where (is_open_shift warehouse cashier company) xs ≤ 1

-- An update that opens no shift.
update-IsSingle :
    (q : CashShift → Bool) (f : CashShift → CashShift) (xs : List CashShift)
    → ((w u c : ℕ) (y : CashShift)
        → is_open_shift w u c (f y) ≡ true
        → is_open_shift w u c y ≡ true)
    → IsSingle xs
    → IsSingle (update_many q f xs)
update-IsSingle q f xs only h w u c =
    let fewer = count_where-update_le q (is_open_shift w u c) f xs (only w u c) in
    let few = h w u c in omega arith

closed_not_open :
    (actual expected : ℤ) (now w u c : ℕ) (y : CashShift)
    → is_open_shift w u c (next_shift (closed_shift actual expected now) y) ≡ true
    → is_open_shift w u c y ≡ true
closed_not_open actual expected now w u c y e = absurd (ground (arith, e))

raised-IsSingle :
    (kind : MovementKind) (c : CashShift) (company : ℕ) (amount : ℤ) (xs ys : List CashShift)
    → IsRaised kind c company amount xs ys
    → IsSingle xs
    → IsSingle ys
raised-IsSingle into_drawer c company amount xs ys raised h = subst IsSingle (sym raised) (
    update-IsSingle (is_shift_version c.id company c.row_version)
      (next_shift (moved into_drawer (current_of into_drawer c +ℤ amount))) xs (λ w u k y e. e) h)
raised-IsSingle out_of_drawer c company amount xs ys raised h = subst IsSingle (sym raised) (
    update-IsSingle (is_shift_version c.id company c.row_version)
      (next_shift (moved out_of_drawer (current_of out_of_drawer c +ℤ amount))) xs (λ w u k y e. e)
      h)

-- What an `openShift` that succeeds has done.
pub open_shift_ok :
    (dto : OpenShiftDto) (user company : ℕ) (s t : Till) (c : CashShift)
    → open_shift dto user company s ≡ (ok c, t)
    → (find_first (is_open_shift dto.warehouse user company) s.shifts ≡ none)
      × (t.shifts ≡ s.shifts ++ (c ∷ []))
      × (c ≡ shift_row dto user company (base_currency company s.companies) s.next_id)
unfolding open_shift insert_shift transaction
open_shift_ok dto user company s t c e =
    elim (Option-cases (find_first (is_open_shift dto.warehouse user company) s.shifts)) [
      | inr (old, taken) ↦ absurd (ground (arith, e, taken))
      | inl free ↦
          elim (Option-cases (find_first (is_live_warehouse dto.warehouse company) s.warehouses)) [
            | inl lost ↦ absurd (ground (arith, e, free, lost))
            | inr (w, there) ↦
                elim (Bool-cases (differs dto.currency (base_currency company s.companies))) [
                  | inl other ↦ absurd (ground (arith, e, free, there, other))
                  | inr same ↦
                      elim (Bool-cases
                        (any_where (is_open_shift dto.warehouse user company) s.shifts)) [
                          | inl twice ↦ absurd (ground (arith, e, free, there, same, twice))
                          | inr once ↦ (
                            free,
                            ground (arith, e, free, there, same, once),
                            ground (arith, e, free, there, same, once),
                          )
                        ]
                ]
          ]
    ]

only_shift :
    (w u c : ℕ) (row : CashShift)
    → is_open_shift w u c row ≡ true
    → (row.warehouse ≡ w) × (row.cashier ≡ u) × (row.company ≡ c)
only_shift w u c row e = (ground (arith, e), ground (arith, e), ground (arith, e))

open_shift-IsSingle :
    (dto : OpenShiftDto) (user company : ℕ) (s t : Till) (row : CashShift)
    → open_shift dto user company s ≡ (ok row, t)
    → IsSingle s.shifts
    → IsSingle t.shifts
open_shift-IsSingle dto user company s t row e h =
    let (free, shifts, made) = open_shift_ok dto user company s t row e in
    subst IsSingle (sym shifts) (λ w u c.
      let q = is_open_shift w u c in
      let more = count_where-append_one q s.shifts row in
      let few = h w u c in
      elim (Bool-cases (q row)) [
        | inr n ↦ rw (more, n) (omega arith)
        | inl t ↦
            let (here, mine, ours) = only_shift w u c row t in
            let place : dto.warehouse ≡ w = ap CashShift.warehouse (sym made) ∙ here in
            let who : user ≡ u = ap CashShift.cashier (sym made) ∙ mine in
            let whose : company ≡ c = ap CashShift.company (sym made) ∙ ours in
            let absent : find_first q s.shifts ≡ none = rw (place, who, whose) at free in
            rw (more, t, count_where-none q s.shifts absent) (omega arith)
      ])

-- A request that succeeds. One that fails is rolled back.
pub data ShiftStep : Till → Till → Type 0 where
  opening_one :
      (dto : OpenShiftDto) (user company : ℕ) (s t : Till) (c : CashShift)
      → open_shift dto user company s ≡ (ok c, t)
      → ShiftStep s t
  closing_one :
      (counted : Option ℤ) (user company warehouse : ℕ) (clock : Clock) (s t : Till)
      (row : Option CashShift)
      → close_shift counted user company warehouse clock s ≡ (ok row, t)
      → ShiftStep s t
  moving_cash :
      (dto : CashInOutDto) (user company warehouse : ℕ) (kind : MovementKind) (clock : Clock)
      (s t : Till) (row : Option CashShift)
      → apply_cash_mutation dto user company warehouse kind clock s ≡ (ok row, t)
      → ShiftStep s t

pub data ShiftSteps : Till → Till → Type 0 where
  no_request : (s : Till) → ShiftSteps s s
  then_request : (s t u : Till) → ShiftSteps s t → ShiftStep t u → ShiftSteps s u

abbrev pub IsOrderly : Till → Type 0
IsOrderly s = IsSingle s.shifts × IsReconciled s.books

open_shift-books :
    (dto : OpenShiftDto) (user company : ℕ) (s : Till)
    → (open_shift dto user company s).1.books ≡ s.books
unfolding open_shift insert_shift transaction
open_shift-books dto user company s = ground arith

step-IsOrderly : (s t : Till) → ShiftStep s t → IsOrderly s → IsOrderly t
step-IsOrderly s t (opening_one dto user company _ _ c e) (single, balanced) = (
  open_shift-IsSingle dto user company s t c e single,
  subst IsReconciled (sym (open_shift-books dto user company s) ∙ ap (λ p. p.1.books) e) balanced,
)
step-IsOrderly s t (closing_one counted user company warehouse clock _ _ row e) (single, balanced) =
    let (after, c, there, done) =
      close_shift_ok counted user company warehouse clock s t row e balanced in
    (
      subst IsSingle (sym done.shifts) (
          update-IsSingle (is_shift_version c.id company c.row_version)
            (next_shift (closed_shift done.actual done.expected clock.now)) s.shifts
            (closed_not_open done.actual done.expected clock.now) single),
      after,
    )
step-IsOrderly s t (moving_cash dto user company warehouse kind clock _ _ row e)
      (single, balanced) =
    let (balanced_after, c, there, done, _, _, _) =
      apply_cash_mutation_ok dto user company warehouse kind clock s t row e balanced in
    (raised-IsSingle kind c company dto.amount s.shifts t.shifts done.shifts single, balanced_after)

-- If no cashier has two open shifts in a warehouse and the ledger is reconciled, then both hold after
-- any sequence of requests that open a shift, close one, or move cash, and succeed.
pub steps-IsOrderly : (s t : Till) → ShiftSteps s t → IsOrderly s → IsOrderly t
steps-IsOrderly s t (no_request _) h = h
steps-IsOrderly s u (then_request _ t _ run one) h =
    step-IsOrderly t u one (steps-IsOrderly s t run h)

module _ (pending_body : Option CashShift) (to_json : Option CashShift → Option CashShift) where
  -- `cashIn` and `cashOut`, with or without an idempotency key, whatever their outcome: if no cashier
  -- has two open shifts in a warehouse and the ledger is reconciled, then both hold after them.
  pub cash_mutation-IsOrderly :
      (dto : CashInOutDto) (user company warehouse : ℕ) (kind : MovementKind) (key : Option ℕ)
      (request_hash : ℕ) (clock : Clock) (s : Store Till (Option CashShift))
      → IsOrderly s.business
      → IsOrderly
          (cash_mutation pending_body to_json dto user company warehouse kind key request_hash clock
            s).1.business
  unfolding cash_mutation
  cash_mutation-IsOrderly dto user company warehouse kind key request_hash clock s h =
      let work = apply_cash_mutation dto user company warehouse kind clock in
      let ran =
        run_with_idempotency pending_body to_json key company (endpoint_of kind) request_hash
          clock.now 200 work in
      let kept =
        run_keeps pending_body to_json IsOrderly work key company (endpoint_of kind) request_hash
          clock.now 200 s
          (λ row t e.
            step-IsOrderly s.business t
              (moving_cash dto user company warehouse kind clock s.business t row e) h)
          h in
      elim (run-cases ran s) [
        | inl (answer, t, e) ↦
            subst (λ q. IsOrderly q.1.business) (sym (bind_ok ran (λ a. pure a.1) s t answer e))
              (subst (λ q. IsOrderly q.1.business) e kept)
        | inr (x, t, e) ↦
            subst (λ q. IsOrderly q.1.business) (sym (bind_err ran (λ a. pure a.1) s t x e))
              (subst (λ q. IsOrderly q.1.business) e kept)
      ]
