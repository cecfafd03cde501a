-- ===== src/Sales/CashShift/Raised.antt =====
-- What a cash movement is to write to the shift and to the ledger: `cashIn` and `cashOut`
-- (backend/src/modules/sales/services/cash-shift.service.ts).
use stock_flow.Prelude.Int.{◌+ℤ◌, ℤ, pos}
use stock_flow.Sales.CashShift.Operations.{next_shift, is_shift_version}
use stock_flow.Sales.CashShift.{CashShift, is_open_shift, Till}
use stock_flow.Finance.GlEngine.{PostJournalEntryInput}
use stock_flow.Finance.Tables.{JournalLine}
use stock_flow.Sales.CashShift.Steps.{IsShiftPosted}
use stock_flow.Sales.CashShift.Movements.{
  movement_lines, moved, current_of, MovementKind, into_drawer, out_of_drawer,
}
use stock_flow.Prelude.{
  ◌≡◌, ◌∷◌, ◌==◌, ◌&&◌, ℕ, update_many, suc, some, refl, find_first_sound, find_first-update_many,
  find_first, [], List, arith,
}

-- The counter of the shift that a movement raises, with the next row version.
abbrev pub IsRaised : MovementKind → CashShift → ℕ → ℤ → List CashShift → List CashShift → Type 0
IsRaised into_drawer c company amount xs ys =
    ys
    ≡ update_many (λ y. y.id == c.id && y.company == company && y.row_version == c.row_version)
        (λ y. record y { cash_in = c.cash_in +ℤ amount; row_version = suc y.row_version }) xs
IsRaised out_of_drawer c company amount xs ys =
    ys
    ≡ update_many (λ y. y.id == c.id && y.company == company && y.row_version == c.row_version)
        (λ y. record y { cash_out = c.cash_out +ℤ amount; row_version = suc y.row_version }) xs

pub moved-IsRaised :
    (kind : MovementKind) (c : CashShift) (company : ℕ) (amount : ℤ) (xs ys : List CashShift)
    → ys
      ≡ update_many
          (is_shift_version c.id company c.row_version)
          (next_shift (moved kind (current_of kind c +ℤ amount)))
          xs
    → IsRaised kind c company amount xs ys
moved-IsRaised into_drawer c company amount xs ys e = e
moved-IsRaised out_of_drawer c company amount xs ys e = e

-- The shift itself, which stays open, as the query that found it finds it after the movement.
abbrev pub IsRaisedShift : MovementKind → CashShift → ℤ → CashShift → Type 0
IsRaisedShift into_drawer c amount after =
    after ≡ record c { cash_in = c.cash_in +ℤ amount; row_version = suc c.row_version }
IsRaisedShift out_of_drawer c amount after =
    after ≡ record c { cash_out = c.cash_out +ℤ amount; row_version = suc c.row_version }

pub raised_shift :
    (kind : MovementKind) (c : CashShift) (user company warehouse : ℕ) (amount : ℤ)
    (xs ys : List CashShift)
    → find_first (is_open_shift warehouse user company) xs ≡ some c
    → IsRaised kind c company amount xs ys
    → (after : CashShift) × (find_first (is_open_shift warehouse user company) ys ≡ some after)
      × IsRaisedShift kind c amount after
raised_shift into_drawer c user company warehouse amount xs ys found e =
    let q = is_open_shift warehouse user company in
    let mine = find_first_sound q xs c found in
    (
      record c { cash_in = c.cash_in +ℤ amount; row_version = suc c.row_version },
      rw e (
          find_first-update_many (is_shift_version c.id company c.row_version) q
            (λ y. record y { cash_in = c.cash_in +ℤ amount; row_version = suc y.row_version }) xs c
            found (ground (arith, mine)) (λ y. refl)),
      refl,
    )
raised_shift out_of_drawer c user company warehouse amount xs ys found e =
    let q = is_open_shift warehouse user company in
    let mine = find_first_sound q xs c found in
    (
      record c { cash_out = c.cash_out +ℤ amount; row_version = suc c.row_version },
      rw e (
          find_first-update_many (is_shift_version c.id company c.row_version) q
            (λ y. record y { cash_out = c.cash_out +ℤ amount; row_version = suc y.row_version }) xs
            c found (ground (arith, mine)) (λ y. refl)),
      refl,
    )

-- The entry of a movement: cash that is put in debits the drawer and credits the counterpart, and
-- cash that is taken out the other way round.
abbrev pub IsMovementPosted :
    MovementKind → ℕ → ℕ → ℤ → (List JournalLine → PostJournalEntryInput) → Till → Till → Type 0
IsMovementPosted into_drawer drawer counterpart amount input s t =
    IsShiftPosted
      (input (
        record { account = drawer; debit = amount; credit = pos 0 }
        ∷ record { account = counterpart; debit = pos 0; credit = amount }
        ∷ []))
      s t
IsMovementPosted out_of_drawer drawer counterpart amount input s t =
    IsShiftPosted
      (input (
        record { account = counterpart; debit = amount; credit = pos 0 }
        ∷ record { account = drawer; debit = pos 0; credit = amount }
        ∷ []))
      s t

pub movement_posted :
    (kind : MovementKind) (drawer counterpart : ℕ) (amount : ℤ)
    (input : List JournalLine → PostJournalEntryInput) (s t : Till)
    → IsShiftPosted (input (movement_lines kind drawer counterpart amount)) s t
    → IsMovementPosted kind drawer counterpart amount input s t
movement_posted into_drawer drawer counterpart amount input s t done = done
movement_posted out_of_drawer drawer counterpart amount input s t done = done
