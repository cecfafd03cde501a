-- ===== src/Finance/PostingValidation/Accepted.antt =====
-- What `validate` accepts.
use stock_flow.Tx.{ok}
use stock_flow.Finance.PostingValidation.{
  line_account, is_period, is_open, is_live_account, is_empty_line, distinct, validate, add_columns,
}
use stock_flow.Prelude.{
  ◌≢◌, ◌+◌, suc, ◌≤◌, true, some, map, length, inr, inl, find_many, find_first, false, any_where,
  Option-cases, ◌≡◌, ◌∷◌, ◌∙◌, ℕ, refl, arith, [], List,
}
use stock_flow.Finance.Tables.{
  open_period, closing, closed, FinancialPeriodStatus, FinancialPeriod, Ledger, JournalLine,
}
use stock_flow.Prelude.Int.{negsuc, ◌≤ℤ◌, zero-+ℤ, eq_of_parts, ◌+ℤ◌, ℤ, pos, +ℤ_assoc, +ℤ-zero}

abbrev pub column : (JournalLine → ℤ) → List JournalLine → ℤ
column side [] = pos 0
column side (l ∷ ls) = side l +ℤ column side ls

abbrev pub debit_of : JournalLine → ℤ
debit_of l = l.debit

abbrev pub credit_of : JournalLine → ℤ
credit_of l = l.credit

-- The loop adds the plain sums of the two columns.
pub add_columns_lem :
    (d c : ℤ) (ls : List JournalLine)
    → add_columns d c ls ≡ (d +ℤ column debit_of ls, c +ℤ column credit_of ls)
add_columns_lem d c [] = rw (+ℤ-zero d, +ℤ-zero c) refl
add_columns_lem d c (l ∷ ls) =
    add_columns_lem (d +ℤ l.debit) (c +ℤ l.credit) ls
    ∙ rw (+ℤ_assoc d l.debit (column debit_of ls), +ℤ_assoc c l.credit (column credit_of ls)) refl

module _ (company entry_date period : ℕ) (lines : List JournalLine) (s : Ledger) where
  -- The validation reads only.
  pub validate_reads : (validate company entry_date period lines s).1 ≡ s
  unfolding validate
  validate_reads = ground arith

  -- Everything that an accepted posting satisfies.
  pub record IsAccepted (debit credit : ℤ) : Type 0 where
    pub row : FinancialPeriod
    pub known : find_first (is_period period company) s.periods ≡ some row
    pub is_open_period : row.status ≡ open_period
    pub from_start : row.start_date ≤ entry_date
    pub to_end : entry_date ≤ row.end_date
    pub two_lines : 2 ≤ length lines
    pub all_live :
        length (find_many (is_live_account (distinct (map line_account lines)) company) s.accounts)
        ≡ length (distinct (map line_account lines))
    pub no_empty : any_where is_empty_line lines ≡ false
    pub debits : debit ≡ column debit_of lines
    pub credits : credit ≡ column credit_of lines
    pub balanced : debit ≡ credit
    pub not_negative : pos 0 ≤ℤ debit

  open_status : (st : FinancialPeriodStatus) → is_open st ≡ true → st ≡ open_period
  open_status open_period e = refl
  open_status closing e = cc
  open_status closed e = cc

  -- If `validate` returns totals, the period is known to the company, OPEN, and covers the entry
  -- date; there are at least two lines, none of them empty; as many live accounts of the company
  -- are found as the lines name; and the totals are the sums of the two columns, equal, and not
  -- negative.
  pub validate_accepts :
      {debit credit : ℤ}
      → (validate company entry_date period lines s).0 ≡ ok (debit, credit)
      → IsAccepted debit credit
  unfolding validate
  validate_accepts {debit} {credit} e =
      elim (Option-cases (find_first (is_period period company) s.periods)) [
        | inl missing ↦ ground arith
        | inr (row, known) ↦ record {
          row = row;
          known = known;
          is_open_period = open_status row.status (ground arith);
          from_start = ground arith;
          to_end = ground arith;
          two_lines = ground arith;
          all_live = ground arith;
          no_empty = ground arith;
          debits =
              ground
                (arith, add_columns_lem (pos 0) (pos 0) lines, zero-+ℤ (column debit_of lines));
          credits =
              ground
                (arith, add_columns_lem (pos 0) (pos 0) lines, zero-+ℤ (column credit_of lines));
          balanced = ground (arith, eq_of_parts debit credit);
          not_negative = ground arith;
        }
      ]

-- The check of negative amounts looks at the totals alone: an entry of two lines whose one credit
-- is negative (-(k + 1)) is accepted, in an open period that covers the date, over any two
-- different live accounts, with totals m.
pub negative_line_accepted :
    (company entry_date period a b k m : ℕ) (row : FinancialPeriod) (s : Ledger)
    → find_first (is_period period company) s.periods ≡ some row
    → row.status ≡ open_period
    → row.start_date ≤ entry_date
    → entry_date ≤ row.end_date
    → a ≢ b
    → length (find_many (is_live_account (a ∷ b ∷ []) company) s.accounts) ≡ 2
    → validate company entry_date period
        (record { account = a; debit = pos m; credit = negsuc k }
          ∷ record { account = b; debit = pos 0; credit = pos (suc k + m) }
          ∷ [])
        s
      ≡ (ok (pos m, pos m), s)
unfolding validate ◌+ℤ◌
negative_line_accepted company entry_date period a b k m row s known st from to ne live =
    let two : distinct (a ∷ b ∷ []) ≡ a ∷ b ∷ [] = ground arith in ground arith
