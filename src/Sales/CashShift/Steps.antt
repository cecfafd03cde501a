-- ===== src/Sales/CashShift/Steps.antt =====
-- What the parts of `closeShift` and `applyCashMutation`
-- (backend/src/modules/sales/services/cash-shift.service.ts) have done when they succeed.
use stock_flow.Sales.CashShift.Operations.{
  update_shift, open_books, next_shift, is_shift_version, is_shift_of,
}
use stock_flow.Tx.{ok, bind_inv, Tx}
use stock_flow.Finance.GlEngine.{execute_post, PostJournalEntryInput}
use stock_flow.Finance.Tables.{Ledger}
use stock_flow.Sales.CashShift.{resolve_open_period, reads, on_books, Till, CashShift}
use stock_flow.Finance.Calendar.{Clock, ensure_current_calendar}
use stock_flow.Finance.Calendar.Outcome.{ensure_current_calendar-entries}
use stock_flow.Finance.GlEngine.Journal.{
  IsPosting, execute_post_ok, IsReconciled, IsPosting-IsReconciled,
}
use stock_flow.Prelude.{
  ◌≡◌, ◌∙◌, ◌==◌, ℕ, update_many, sym, subst, inr, inl, find_first, count_where, ap, Option, arith,
  Option-cases, Bool-cases,
}

pub on_books_ok :
    {A : Type 0} (work : Tx Ledger A) (s t : Till) (a : A)
    → on_books work s ≡ (ok a, t)
    → (work s.books ≡ (ok a, t.books)) × (record s { books = t.books } ≡ t)
unfolding on_books
on_books_ok work s t a e =
    let whole : record s { books = (work s.books).1 } ≡ t = ap (λ p. p.1) e in
    (
      λ i. ((e i).0, (e i).1.books),
      ap (λ l. record s { books = l }) (sym (ap Till.books whole)) ∙ whole,
    )

-- The calendar may get rows; the journal, the balances and the shifts stay.
pub record IsOpened (s t : Till) : Type 0 where
  pub entries : t.books.entries ≡ s.books.entries
  pub balances : t.books.balances ≡ s.books.balances
  pub accounts : t.books.accounts ≡ s.books.accounts
  pub shifts : t.shifts ≡ s.shifts

pub open_books_ok :
    (company : ℕ) (clock : Clock) (s t : Till) (period : ℕ)
    → open_books company clock s ≡ (ok period, t)
    → IsOpened s t
unfolding open_books
open_books_ok company clock s t period e =
    let (made, u, ensured, rest) =
      bind_inv (on_books (ensure_current_calendar company clock))
        (λ _. reads (resolve_open_period company clock.now)) s t period e in
    let (ran, kept) = on_books_ok (ensure_current_calendar company clock) s u made ensured in
    let same : u ≡ t = ap (λ p. p.1) rest in
    let (entries, balances, accounts) = ensure_current_calendar-entries company clock s.books in
    let written : (ensure_current_calendar company clock s.books).1 ≡ t.books =
      ap (λ p. p.1) ran ∙ ap Till.books same in
    record {
      entries = ap Ledger.entries (sym written) ∙ entries;
      balances = ap Ledger.balances (sym written) ∙ balances;
      accounts = ap Ledger.accounts (sym written) ∙ accounts;
      shifts = ap Till.shifts (sym (kept ∙ same));
    }

pub update_shift_ok :
    (id : ℕ) (columns : CashShift → CashShift) (company version : ℕ) (s t : Till)
    (row : Option CashShift)
    → update_shift id columns company version s ≡ (ok row, t)
    → record s {
      shifts = update_many (is_shift_version id company version) (next_shift columns) s.shifts;
    }
      ≡ t
unfolding update_shift
update_shift_ok id columns company version s t row e =
    elim (Bool-cases (count_where (is_shift_version id company version) s.shifts == 0)) [
      | inl lost ↦
          let after =
            update_many (is_shift_version id company version) (next_shift columns) s.shifts in
          elim (Option-cases (find_first (is_shift_of id company) after)) [
            | inl gone ↦ absurd (ground (arith, e, lost, gone))
            | inr (c, there) ↦ absurd (ground (arith, e, lost, there))
          ]
      | inr more ↦ ground (arith, e, more)
    ]

-- An entry of a shift is posted, and the shifts stay.
pub record IsShiftPosted (input : PostJournalEntryInput) (s t : Till) : Type 0 where
  pub entry : ℕ
  pub posting : IsPosting input s.books entry t.books
  pub shifts : t.shifts ≡ s.shifts

pub on_books-execute_post :
    (input : PostJournalEntryInput) (s t : Till) (entry : ℕ)
    → on_books (execute_post input) s ≡ (ok entry, t)
    → IsShiftPosted input s t
on_books-execute_post input s t entry e =
    let (ran, kept) = on_books_ok (execute_post input) s t entry e in
    record {
      entry = entry;
      posting =
          subst (IsPosting input s.books entry) (ap (λ p. p.1) ran)
            (execute_post_ok input s.books (ap (λ p. p.0) ran));
      shifts = ap Till.shifts (sym kept);
    }

pub with_audit-IsShiftPosted :
    (input : PostJournalEntryInput) (s t u : Till)
    → t.books ≡ u.books
    → t.shifts ≡ u.shifts
    → IsShiftPosted input s t
    → IsShiftPosted input s u
with_audit-IsShiftPosted input s t u books shifts done = record {
  entry = done.entry;
  posting = subst (IsPosting input s.books done.entry) books done.posting;
  shifts = sym shifts ∙ done.shifts;
}

pub opened-IsReconciled : (s t : Till) → IsOpened s t → IsReconciled s.books → IsReconciled t.books
opened-IsReconciled s t done h side c a p = rw (done.balances, done.entries) (h side c a p)

pub posted-IsReconciled :
    (input : PostJournalEntryInput) (s t : Till)
    → IsShiftPosted input s t
    → IsReconciled s.books
    → IsReconciled t.books
posted-IsReconciled input s t done =
    IsPosting-IsReconciled input s.books t.books done.entry done.posting
