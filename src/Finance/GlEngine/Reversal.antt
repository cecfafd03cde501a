-- ===== src/Finance/GlEngine/Reversal.antt =====
-- `reverse`: the original is claimed once, and its compensation is posted with swapped columns.
use stock_flow.Finance.PostingValidation.Accepted.{validate_accepts}
use stock_flow.Finance.PostingValidation.{is_period}
use stock_flow.Prelude.Int.{◌+ℤ◌}
use stock_flow.Finance.GlEngine.{
  swapped, reverse_work, reverse, reversal_input, is_reversal, is_entry, is_claimable, execute_post,
  claimed,
}
use stock_flow.Finance.GlEngine.Balances.{
  lines_total, debit_side, credit_side, closing_of-apply_lines, closing_of, Side,
}
use stock_flow.Finance.Tables.{
  reversal_of, no_reference, document, Reference, open_period, FinancialPeriod, Ledger, JournalLine,
  JournalEntry,
}
use stock_flow.Finance.GlEngine.Journal.{
  journal_total-update_many, execute_post_ok, claimed-contribution, IsReconciled,
  IsPosting-IsReconciled, IsPosting,
}
use stock_flow.Tx.{conflict, bad_request, ok, err, Result-cases, Exception}
use stock_flow.Prelude.{
  ◌≤◌, ◌≡◌, ◌∷◌, ◌∙◌, ◌==◌, ℕ, update_many, sym, subst, some-injective, some, refl, map, inr, inl,
  find_first, false, count_where, arith, ap, [], Option-cases, List, Bool-cases,
}

-- The state in which `reverse` posts the compensation: the original is claimed.
abbrev pub with_claim : ℕ → ℕ → Ledger → Ledger
with_claim id company s = record s {
  entries = update_many (is_claimable id company) claimed s.entries;
}

with_claim-IsReconciled :
    (id company : ℕ) (s : Ledger) → IsReconciled s → IsReconciled (with_claim id company s)
with_claim-IsReconciled id company s h side c a p =
    h side c a p
    ∙ sym (
        journal_total-update_many side c a p (is_claimable id company) claimed s.entries
          (claimed-contribution side c a p id company))

-- What a successful reversal has done: it found the original, no compensation itself, claimed it
-- while it was POSTED, and posted its lines with the columns swapped.
pub record IsReversal (id company user now : ℕ) (s : Ledger) (new : ℕ) (s' : Ledger) : Type 0 where
  pub original : JournalEntry
  pub known : find_first (is_entry id company) s.entries ≡ some original
  pub no_compensation : is_reversal original.reference ≡ false
  pub claims : (count_where (is_claimable id company) s.entries == 0) ≡ false
  pub posting :
      IsPosting
        (reversal_input original company user now)
        (with_claim id company s)
        new
        (execute_post (reversal_input original company user now) (with_claim id company s)).1
  pub entries :
      s'.entries
      ≡ (execute_post
          (reversal_input original company user now)
          (with_claim id company s)).1.entries
  pub balances :
      s'.balances
      ≡ (execute_post
          (reversal_input original company user now)
          (with_claim id company s)).1.balances

pub reverse_ok :
    (id company user now : ℕ) (s : Ledger) {new : ℕ}
    → (reverse id company user now s).0 ≡ ok new
    → IsReversal id company user now s new (reverse id company user now s).1
unfolding reverse
reverse_ok id company user now s {new} e =
    elim (Option-cases (find_first (is_entry id company) s.entries)) [
      | inl missing ↦ ground arith
      | inr (original, known) ↦
          let input = reversal_input original company user now in
          elim (Bool-cases (is_reversal original.reference)) [
            | inl compensation ↦ ground arith
            | inr plain ↦ elim (Bool-cases (count_where (is_claimable id company) s.entries == 0)) [
              | inl taken ↦ ground arith
              | inr claims ↦ elim (Result-cases (execute_post input (with_claim id company s)).0) [
                | inr (x, bad) ↦ ground (arith, bad)
                | inl (made, good) ↦
                    let same : made ≡ new = ground (arith, good) in
                    record {
                      original = original;
                      known = known;
                      no_compensation = plain;
                      claims = claims;
                      posting = execute_post_ok input (with_claim id company s) (good ∙ ap ok same);
                      entries = ground (arith, good);
                      balances = ground (arith, good);
                    }
              ]
            ]
          ]
    ]

-- A reversal that throws leaves the ledger as it was.
reverse_failed :
    (id company user now : ℕ) (s : Ledger) {x : Exception}
    → (reverse id company user now s).0 ≡ err x
    → (reverse id company user now s).1 ≡ s
unfolding reverse
reverse_failed id company user now s bad =
    elim (Result-cases (reverse_work id company user now s).0) [
      | inl (new, good) ↦ ground (arith, good)
      | inr (y, worse) ↦ ground (arith, worse)
    ]

-- If every balance snapshot is the sum of the journal, so it is after a call of `reverse`, whatever
-- its outcome.
pub reverse-IsReconciled :
    (id company user now : ℕ) (s : Ledger)
    → IsReconciled s
    → IsReconciled (reverse id company user now s).1
reverse-IsReconciled id company user now s h =
    elim (Result-cases (reverse id company user now s).0) [
      | inr (x, bad) ↦ subst IsReconciled (sym (reverse_failed id company user now s bad)) h
      | inl (new, good) ↦
          let done = reverse_ok id company user now s good in
          let input = reversal_input done.original company user now in
          let claim = with_claim id company s in
          λ side c a p.
            rw (done.entries, done.balances)
              (IsPosting-IsReconciled input claim (execute_post input claim).1 new done.posting
                (with_claim-IsReconciled id company s h) side c a p)
    ]

abbrev pub other_side : Side → Side
other_side debit_side = credit_side
other_side credit_side = debit_side

lines_total-swapped :
    (side : Side) (c a p c' p' : ℕ) (ls : List JournalLine)
    → lines_total side c a p c' p' (map swapped ls) ≡ lines_total (other_side side) c a p c' p' ls
lines_total-swapped debit_side c a p c' p' [] = refl
lines_total-swapped debit_side c a p c' p' (l ∷ ls) =
    rw (lines_total-swapped debit_side c a p c' p' ls)
lines_total-swapped credit_side c a p c' p' [] = refl
lines_total-swapped credit_side c a p c' p' (l ∷ ls) =
    rw (lines_total-swapped credit_side c a p c' p' ls)

-- A successful reversal of an entry adds to each column of every snapshot exactly what the entry's
-- lines hold in the other column, so that debit less credit is as if the entry had not been posted.
pub reverse_compensates :
    (id company user now : ℕ) (s : Ledger) {new : ℕ} (original : JournalEntry)
    → (reverse id company user now s).0 ≡ ok new
    → find_first (is_entry id company) s.entries ≡ some original
    → (side : Side) (c a p : ℕ)
    → closing_of side c a p (reverse id company user now s).1.balances
      ≡ closing_of side c a p s.balances
        +ℤ lines_total (other_side side) c a p company original.period original.lines
reverse_compensates id company user now s original e known side c a p =
    let done = reverse_ok id company user now s e in
    let same : done.original ≡ original = some-injective _ _ (sym done.known ∙ known) in
    rw
      (
        done.balances,
        done.posting.balances,
        closing_of-apply_lines side c a p company done.original.period
            (map swapped done.original.lines) s.balances,
        lines_total-swapped side c a p company done.original.period done.original.lines,
        same,
      )
      refl

-- A reversal succeeds only while the period of the original entry is OPEN and covers the current
-- date: the compensation is dated now, in the original's period.
pub reverse_in_period :
    (id company user now : ℕ) (s : Ledger) {new : ℕ} (original : JournalEntry)
    → (reverse id company user now s).0 ≡ ok new
    → find_first (is_entry id company) s.entries ≡ some original
    → (row : FinancialPeriod) × (find_first (is_period original.period company) s.periods
        ≡ some row)
      × (row.status ≡ open_period)
      × (row.start_date ≤ now)
      × (now ≤ row.end_date)
reverse_in_period id company user now s original e known =
    let done = reverse_ok id company user now s e in
    let same : done.original ≡ original = some-injective _ _ (sym done.known ∙ known) in
    let ok_now =
      validate_accepts company now done.original.period (map swapped done.original.lines)
        (with_claim id company s) done.posting.accepted in
    (ok_now.row, rw (← same) ok_now.known, ok_now.is_open_period, ok_now.from_start, ok_now.to_end)

abbrev pub entry_id : JournalEntry → ℕ
entry_id e = e.id

-- How `reverse` answers for an entry that it refuses.
abbrev pub refusal_of : Reference → Exception
refusal_of no_reference = conflict
refusal_of (reversal_of _) = bad_request
refusal_of (document _ _) = conflict
