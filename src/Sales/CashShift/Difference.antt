-- ===== src/Sales/CashShift/Difference.antt =====
-- What `closeShift` posts for the difference of what is there and what is expected
-- (backend/src/modules/sales/services/cash-shift.service.ts).
use stock_flow.Sales.CashShift.Accounts.{resolve_system_account_ok}
use stock_flow.Sales.CashShift.{
  Till, shortage_code, resolve_system_account, reads, overage_code, on_books,
}
use stock_flow.Suppliers.Checks.{is_account_coded}
use stock_flow.Sales.CashShift.Operations.{
  shift_entry, shift_audit, post_gap, post_difference, gap_lines, gap_code, gap_action,
}
use stock_flow.Tx.{◌>>=◌, ok, bind_inv}
use stock_flow.Finance.GlEngine.{execute_post, PostJournalEntryInput}
use stock_flow.Sales.CashShift.Steps.{
  with_audit-IsShiftPosted, posted-IsReconciled, on_books-execute_post, IsShiftPosted,
}
use stock_flow.Finance.GlEngine.Journal.{IsReconciled}
use stock_flow.Finance.Tables.{JournalLine, Account}
use stock_flow.Prelude.Int.{ltb_ℤ, eq_ℤ, eq_of_parts, ◌-ℤ◌, ◌<ℤ◌, ℤ, pos, -ℤ_parts, int_laws}
use stock_flow.Prelude.{
  ℕ, ◌⊎◌, ◌≡◌, ◌∷◌, ⊤, true, sym, subst, some, none, inr, inl, find_first, false, ap, [], List,
  arith, Bool-cases,
}

no_difference : (a b : ℤ) → eq_ℤ (a -ℤ b) (pos 0) ≡ true → a ≡ b
no_difference a b e = let parts = -ℤ_parts a b in eq_of_parts a b (ground arith)

short_difference : (a b : ℤ) → ltb_ℤ (a -ℤ b) (pos 0) ≡ true → a <ℤ b
short_difference a b e = let parts = -ℤ_parts a b in ground arith

over_difference :
    (a b : ℤ) → eq_ℤ (a -ℤ b) (pos 0) ≡ false → ltb_ℤ (a -ℤ b) (pos 0) ≡ false → b <ℤ a
over_difference a b e l = let parts = -ℤ_parts a b in ground arith

other_difference : (a b : ℤ) → pos 0 -ℤ (a -ℤ b) ≡ b -ℤ a
other_difference a b = omega int_laws

module _ (expected actual : ℤ) (accounts : List Account)
    (company period now shift user drawer : ℕ) where
  abbrev pub gap_input : List JournalLine → PostJournalEntryInput
  gap_input lines = shift_entry company period now shift user none lines

  -- Less is there than expected: what is missing is debited to the company's live account 6200, and
  -- credited to the drawer.
  pub record IsShortage (s t : Till) : Type 0 where
    pub less : actual <ℤ expected
    pub gap : Account
    pub found : find_first (is_account_coded company 6200) accounts ≡ some gap
    pub posting :
        IsShiftPosted
          (gap_input (
            record { account = gap.id; debit = expected -ℤ actual; credit = pos 0 }
            ∷ record { account = drawer; debit = pos 0; credit = expected -ℤ actual }
            ∷ []))
          s
          t

  -- More is there than expected: the surplus is debited to the drawer, and credited to the company's
  -- live account 4210.
  pub record IsOverage (s t : Till) : Type 0 where
    pub more : expected <ℤ actual
    pub gap : Account
    pub found : find_first (is_account_coded company 4210) accounts ≡ some gap
    pub posting :
        IsShiftPosted
          (gap_input (
            record { account = drawer; debit = actual -ℤ expected; credit = pos 0 }
            ∷ record { account = gap.id; debit = pos 0; credit = actual -ℤ expected }
            ∷ []))
          s
          t

  -- Where all is there, nothing is posted.
  abbrev pub IsDifferencePosted : Till → Till → Type 0
  IsDifferencePosted s t = ((actual ≡ expected) × (s ≡ t)) ⊎ (IsShortage s t ⊎ IsOverage s t)

  pub difference-IsReconciled :
      (s t : Till)
      → IsDifferencePosted s t
      → IsReconciled s.books
      → (t.shifts ≡ s.shifts) × IsReconciled t.books
  difference-IsReconciled s t (inl (nothing, same)) h =
      (ap Till.shifts (sym same), subst (λ (w : Till). IsReconciled w.books) same h)
  difference-IsReconciled s t (inr (inl short)) h =
      (short.posting.shifts, posted-IsReconciled (gap_input _) s t short.posting h)
  difference-IsReconciled s t (inr (inr over)) h =
      (over.posting.shifts, posted-IsReconciled (gap_input _) s t over.posting h)

-- The entry of a difference that is not zero, between the two accounts that were resolved.
abbrev IsGapPosted : ℤ → ℕ → ℕ → ℕ → ℕ → ℕ → ℕ → Till → Till → Type 0
IsGapPosted difference company period now shift user drawer s t =
    (gap : ℕ) × (resolve_system_account company (gap_code difference) s ≡ ok gap)
    × IsShiftPosted
        (shift_entry company period now shift user none (gap_lines difference gap drawer)) s t

post_gap_ok :
    (difference : ℤ) (company period now shift user drawer : ℕ) (s t : Till) (x : ⊤)
    → post_gap difference company period now shift user drawer s ≡ (ok x, t)
    → IsGapPosted difference company period now shift user drawer s t
unfolding post_gap
post_gap_ok difference company period now shift user drawer s t x e =
    let input = λ (gap : ℕ).
      shift_entry company period now shift user none (gap_lines difference gap drawer) in
    let noted = shift_audit (gap_action difference) company user shift in
    let (gap, u, found, rest) =
      bind_inv (reads (resolve_system_account company (gap_code difference)))
        (λ gap. on_books (execute_post (input gap)) >>= noted) s t x e in
    let here : s ≡ u = ap (λ p. p.1) found in
    let (entry, v, done, last) = bind_inv (on_books (execute_post (input gap))) noted u t x rest in
    let posted_there =
      with_audit-IsShiftPosted (input gap) u v t (ap (λ p. p.1.books) last)
        (ap (λ p. p.1.shifts) last) (on_books-execute_post (input gap) u v entry done) in
    (gap, ap (λ p. p.0) found, subst (λ w. IsShiftPosted (input gap) w t) (sym here) posted_there)

module _ (expected actual : ℤ) (company period now shift user drawer : ℕ) (s t : Till) where
  gap_kind :
      eq_ℤ (actual -ℤ expected) (pos 0) ≡ false
      → IsGapPosted (actual -ℤ expected) company period now shift user drawer s t
      → IsShortage expected actual s.books.accounts company period now shift user drawer s t
        ⊎ IsOverage expected actual s.books.accounts company period now shift user drawer s t
  gap_kind some_gap (gap, found, done) = elim (Bool-cases (ltb_ℤ (actual -ℤ expected) (pos 0))) [
    | inl short ↦
        let (a, there, this) =
          resolve_system_account_ok company shortage_code s gap (rw short at found) in
        inl (record {
          less = short_difference actual expected short;
          gap = a;
          found = there;
          posting = rw (this, ← other_difference actual expected) (rw short at done);
        })
    | inr over ↦
        let (a, there, this) =
          resolve_system_account_ok company overage_code s gap (rw over at found) in
        inr (record {
          more = over_difference actual expected some_gap over;
          gap = a;
          found = there;
          posting = rw this (rw over at done);
        })
  ]

  pub post_difference_ok :
      (x : ⊤)
      → post_difference (actual -ℤ expected) company period now shift user drawer s ≡ (ok x, t)
      → IsDifferencePosted expected actual s.books.accounts company period now shift user drawer s t
  post_difference_ok x e = elim (Bool-cases (eq_ℤ (actual -ℤ expected) (pos 0))) [
    | inl nothing ↦ inl (no_difference actual expected nothing, ap (λ p. p.1) (rw nothing at e))
    | inr some_gap ↦ inr (
        gap_kind some_gap (
          post_gap_ok (actual -ℤ expected) company period now shift user drawer s t x
            (rw some_gap at e)))
  ]
