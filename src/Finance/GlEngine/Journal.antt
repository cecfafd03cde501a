-- ===== src/Finance/GlEngine/Journal.antt =====
-- The snapshots against the journal: posting keeps every balance equal to the sum of the journal.
use stock_flow.Finance.PostingValidation.Accepted.{
  validate_accepts, debit_of, credit_of, column, validate_reads,
}
use stock_flow.Finance.PostingValidation.{is_period, validate}
use stock_flow.Tx.{ok, Result-cases}
use stock_flow.Finance.GlEngine.{
  post, posted_entry, signed_by, same_operation, next_number, is_sequence, has_id, execute_post,
  apply_lines, PostJournalEntryInput, is_claimable, claimed,
}
use stock_flow.Finance.GlEngine.Balances.{closing_of-apply_lines, lines_total, closing_of, Side}
use stock_flow.Finance.Tables.{
  entries_of, SequenceType, open_period, FinancialPeriod, DocumentSequence, reversed, posted, draft,
  Ledger, JournalEntryStatus, JournalEntry,
}
use stock_flow.Prelude.{
  none, ap, ◌∙◌, ◌≤◌, some, subst, suc, find_first, any_where, Option-cases, ◌≡◌, ◌∷◌, ◌++◌, ℕ,
  update_many, true, sym, refl, inr, inl, if◌then◌else◌, false, arith, [], List, Bool-cases, Bool,
}
use stock_flow.Prelude.Int.{◌≤ℤ◌, ◌+ℤ◌, ℤ, pos, +ℤ_comm, +ℤ_assoc}

-- DRAFT entries have not reached the ledger; REVERSED ones have, and so has their compensation.
abbrev pub is_counted : JournalEntryStatus → Bool
is_counted draft = false
is_counted posted = true
is_counted reversed = true

abbrev pub contribution : Side → ℕ → ℕ → ℕ → JournalEntry → ℤ
contribution side c a p e =
    if is_counted e.status then lines_total side c a p e.company e.period e.lines else pos 0

-- The sum of a column of the journal for one account and period.
abbrev pub journal_total : Side → ℕ → ℕ → ℕ → List JournalEntry → ℤ
journal_total side c a p [] = pos 0
journal_total side c a p (e ∷ es) = contribution side c a p e +ℤ journal_total side c a p es

-- Every snapshot is the sum of the journal.
abbrev pub IsReconciled : Ledger → Type 0
IsReconciled s =
    (side : Side) (c a p : ℕ)
    → closing_of side c a p s.balances ≡ journal_total side c a p s.entries

module _ (side : Side) (c a p : ℕ) where
  journal_total-append :
      (es : List JournalEntry) (e : JournalEntry)
      → journal_total side c a p (es ++ (e ∷ []))
        ≡ journal_total side c a p es +ℤ contribution side c a p e
  journal_total-append [] e = +ℤ_comm (contribution side c a p e) (pos 0)
  journal_total-append (x ∷ es) e = rw (journal_total-append es e) (sym (+ℤ_assoc _ _ _))

  -- An update that keeps the contribution of the rows that it writes keeps the sum.
  pub journal_total-update_many :
      (q : JournalEntry → Bool) (f : JournalEntry → JournalEntry) (es : List JournalEntry)
      → ((e : JournalEntry)
          → q e ≡ true
          → contribution side c a p (f e) ≡ contribution side c a p e)
      → journal_total side c a p (update_many q f es) ≡ journal_total side c a p es
  journal_total-update_many q f [] keep = refl
  journal_total-update_many q f (e ∷ es) keep =
      let rest = journal_total-update_many q f es keep in
      elim (Bool-cases (q e)) [ inl t ↦ rw (t, keep e t, rest) refl | inr n ↦ rw (n, rest) refl ]

  pub claimed-contribution :
      (id company : ℕ) (e : JournalEntry)
      → is_claimable id company e ≡ true
      → contribution side c a p (claimed e) ≡ contribution side c a p e
  claimed-contribution id company e h = ground arith

-- Taking an entry number writes the counters alone.
pub next_number-shape :
    (company : ℕ) (type : SequenceType) (s : Ledger)
    → (n : ℕ) × (qs : List DocumentSequence) × (next_number company type s
        ≡ (ok n, record s { sequences = qs }))
unfolding next_number
next_number-shape company type s =
    elim (Option-cases (find_first (is_sequence company type) s.sequences)) [
      | inl new ↦ (
        1,
        s.sequences ++ (record { company = company; sequence_type = type; last_number = 1 } ∷ []),
        ground arith,
      )
      | inr (q, old) ↦ (
        suc q.last_number,
        update_many (is_sequence company type) (λ r. record r { last_number = suc r.last_number })
            s.sequences,
        ground arith,
      )
    ]

module _ (input : PostJournalEntryInput) (s : Ledger) where
  -- What a successful posting has done: it was accepted by the validation, it appended one POSTED
  -- entry with the input's lines, applied these lines to the snapshots, and kept the periods.
  pub record IsPosting (id : ℕ) (s' : Ledger) : Type 0 where
    pub number : ℕ
    pub totals : ℤ × ℤ
    pub accepted :
        (validate input.company input.entry_date input.period input.lines s).0 ≡ ok totals
    pub fresh : any_where (same_operation input.company input.client_operation_id) s.entries ≡ false
    pub is_next : id ≡ s.next_id
    pub entries :
        s'.entries
        ≡ update_many
            (has_id s.next_id)
            (λ e. record e { posted_by = some input.created_by })
            (s.entries
              ++ (record {
                id = s.next_id;
                company = input.company;
                entry_number = number;
                period = input.period;
                entry_date = input.entry_date;
                status = posted;
                total_debit = totals.0;
                total_credit = totals.1;
                reference = input.reference;
                client_operation_id = input.client_operation_id;
                created_by = input.created_by;
                posted_by = none;
                lines = input.lines;
                row_version = 0;
              }
                  ∷ []))
    pub balances : s'.balances ≡ apply_lines input.company input.period input.lines s.balances
    pub periods : s'.periods ≡ s.periods

  pub execute_post_ok :
      {id : ℕ} → (execute_post input s).0 ≡ ok id → IsPosting id (execute_post input s).1
  unfolding execute_post
  execute_post_ok {id} e =
      let reads = validate_reads input.company input.entry_date input.period input.lines s in
      let (n, qs, numbered) = next_number-shape input.company (entries_of input.period) s in
      elim (Result-cases (validate input.company input.entry_date input.period input.lines s).0) [
        | inr (x, bad) ↦ ground (arith, bad)
        | inl (totals, good) ↦
            elim (Bool-cases
              (any_where (same_operation input.company input.client_operation_id) s.entries)) [
                | inl twice ↦ ground (arith, reads, numbered)
                | inr fresh ↦ record {
                  number = n;
                  totals = totals;
                  accepted = good;
                  fresh = fresh;
                  is_next = ground (arith, reads, numbered);
                  entries = ground (arith, reads, numbered);
                  balances = ground (arith, reads, numbered);
                  periods = ground (arith, reads, numbered);
                }
              ]
      ]

-- A successful posting keeps every snapshot equal to the sum of the journal.
pub IsPosting-IsReconciled :
    (input : PostJournalEntryInput) (s s' : Ledger) (id : ℕ)
    → IsPosting input s id s'
    → IsReconciled s
    → IsReconciled s'
IsPosting-IsReconciled input s s' id done h side c a p =
    let entry = posted_entry input done.number done.totals s.next_id in
    rw
      (
        done.balances,
        done.entries,
        journal_total-update_many side c a p (has_id s.next_id) (signed_by input.created_by)
            (s.entries ++ (entry ∷ [])) (λ e _. refl),
        journal_total-append side c a p s.entries entry,
        closing_of-apply_lines side c a p input.company input.period input.lines s.balances,
        h side c a p,
      )
      refl

-- If every balance snapshot is the sum of the journal (the lines of the POSTED and REVERSED entries
-- of its company, period and account, column by column), so it is after a call of `post`, whatever
-- its outcome.
pub post-IsReconciled :
    (input : PostJournalEntryInput) (s : Ledger) → IsReconciled s → IsReconciled (post input s).1
unfolding post
post-IsReconciled input s h = elim (Result-cases (execute_post input s).0) [
  | inl (id, good) ↦
      let same : (execute_post input s).1 ≡ (post input s).1 = ground (arith, good) in
      subst IsReconciled same (
        IsPosting-IsReconciled input s (execute_post input s).1 id (execute_post_ok input s good) h)
  | inr (x, bad) ↦
      let same : s ≡ (post input s).1 = ground (arith, bad) in subst IsReconciled same h
]

-- A posting that succeeds is the body of its transaction.
post_executes :
    (input : PostJournalEntryInput) (s : Ledger) {id : ℕ}
    → (post input s).0 ≡ ok id
    → ((execute_post input s).0 ≡ ok id) × ((execute_post input s).1 ≡ (post input s).1)
unfolding post
post_executes input s e = elim (Result-cases (execute_post input s).0) [
  | inr (x, bad) ↦ ground (arith, bad)
  | inl (made, good) ↦ ground (arith, good)
]

-- A posting succeeds only with balanced lines, not negative in total, dated inside a period that is
-- OPEN; it then appends one POSTED entry that carries these lines and the column sums as totals, and
-- is signed by the user.
pub post_balanced :
    (input : PostJournalEntryInput) (s : Ledger) {id : ℕ}
    → (post input s).0 ≡ ok id
    → IsPosting input s id (post input s).1
      × (column debit_of input.lines ≡ column credit_of input.lines)
      × (pos 0 ≤ℤ column debit_of input.lines)
      × (row : FinancialPeriod) × (find_first (is_period input.period input.company) s.periods
          ≡ some row)
      × (row.status ≡ open_period)
      × (row.start_date ≤ input.entry_date)
      × (input.entry_date ≤ row.end_date)
post_balanced input s {id} e =
    let (good, same) = post_executes input s e in
    let done = execute_post_ok input s good in
    let seen =
      validate_accepts input.company input.entry_date input.period input.lines s done.accepted in
    (
      subst (IsPosting input s id) same done,
      sym seen.debits ∙ seen.balanced ∙ seen.credits,
      rw seen.debits at seen.not_negative,
      seen.row,
      seen.known,
      seen.is_open_period,
      seen.from_start,
      seen.to_end,
    )

-- A posting leaves the periods alone, whatever its outcome.
pub post_periods :
    (input : PostJournalEntryInput) (s : Ledger) → (post input s).1.periods ≡ s.periods
unfolding post
post_periods input s = elim (Result-cases (execute_post input s).0) [
  | inl (id, good) ↦
      let same : (execute_post input s).1 ≡ (post input s).1 = ground (arith, good) in
      ap Ledger.periods (sym same) ∙ (execute_post_ok input s good).periods
  | inr (x, bad) ↦
      let same : s ≡ (post input s).1 = ground (arith, bad) in ap Ledger.periods (sym same)
]
