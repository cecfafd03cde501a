-- ===== src/Finance/GlEngine/Balances.antt =====
-- The balance snapshots as a function of account and period, and what one posting adds to them.
use stock_flow.Finance.GlEngine.{upsert_balance, new_balance, apply_lines, is_balance, increment}
use stock_flow.Prelude.{
  ◌∙◌, ◌++◌, refl, inr, inl, false, Bool-cases, ◌≡◌, ◌∷◌, ◌==◌, ◌&&◌, ℕ, update_many, sym,
  if◌then◌else◌, arith, any_where, [], List, Bool,
}
use stock_flow.Finance.Tables.{JournalLine, AccountBalance}
use stock_flow.Prelude.Int.{zero-+ℤ, +ℤ_assoc, ◌+ℤ◌, ℤ, pos, +ℤ-zero}

-- The two columns of a journal.
pub data Side : Type 0 where
  debit_side credit_side : Side

abbrev pub amount : Side → JournalLine → ℤ
amount debit_side l = l.debit
amount credit_side l = l.credit

abbrev pub closing_amount : Side → AccountBalance → ℤ
closing_amount debit_side b = b.closing_debit
closing_amount credit_side b = b.closing_credit

-- The closing amount of the snapshot of an account in a period, 0 where there is none.
abbrev pub closing_of : Side → ℕ → ℕ → ℕ → List AccountBalance → ℤ
closing_of side company account period [] = pos 0
closing_of side company account period (b ∷ bs) =
    if is_balance company account period b
    then closing_amount side b
    else closing_of side company account period bs

abbrev pub same_key : ℕ → ℕ → ℕ → ℕ → ℕ → ℕ → Bool
same_key c a p c' a' p' = c == c' && a == a' && p == p'

module _ (side : Side) (c a p c' p' : ℕ) (l : JournalLine) where
  abbrev share : ℤ
  share = if same_key c a p c' l.account p' then amount side l else pos 0

  closing_of-update :
      (bs : List AccountBalance)
      → closing_of side c a p (update_many (is_balance c' l.account p') (increment l) bs)
        ≡ closing_of side c a p bs
          +ℤ (if any_where (is_balance c' l.account p') bs then share else pos 0)
  closing_of-update [] = sym (+ℤ-zero (pos 0))
  closing_of-update (b ∷ bs) = ground (
    arith,
    closing_of-update bs,
    +ℤ-zero (closing_amount side b),
    +ℤ-zero (closing_of side c a p bs),
  )

  closing_of-append :
      (bs : List AccountBalance)
      → any_where (is_balance c' l.account p') bs ≡ false
      → closing_of side c a p (bs ++ (new_balance c' p' l ∷ [])) ≡ closing_of side c a p bs +ℤ share
  closing_of-append [] none_yet =
      ground (arith, zero-+ℤ share, +ℤ-zero (pos 0), zero-+ℤ (amount side l))
  closing_of-append (b ∷ bs) none_yet =
      ground (arith, closing_of-append bs, +ℤ-zero (closing_amount side b))

  -- One upsert adds the line's amount to the snapshot of its own key, and to no other.
  pub closing_of-upsert :
      (bs : List AccountBalance)
      → closing_of side c a p (upsert_balance c' p' l bs) ≡ closing_of side c a p bs +ℤ share
  unfolding upsert_balance
  closing_of-upsert bs = elim (Bool-cases (any_where (is_balance c' l.account p') bs)) [
    | inl old ↦ rw (old) (closing_of-update bs ∙ rw old refl)
    | inr new ↦ rw new (closing_of-append bs new)
  ]

-- What lines of a company and period add to the snapshot of a key.
abbrev pub lines_total : Side → ℕ → ℕ → ℕ → ℕ → ℕ → List JournalLine → ℤ
lines_total side c a p c' p' [] = pos 0
lines_total side c a p c' p' (l ∷ ls) =
    (if same_key c a p c' l.account p' then amount side l else pos 0)
    +ℤ lines_total side c a p c' p' ls

pub closing_of-apply_lines :
    (side : Side) (c a p c' p' : ℕ) (ls : List JournalLine) (bs : List AccountBalance)
    → closing_of side c a p (apply_lines c' p' ls bs)
      ≡ closing_of side c a p bs +ℤ lines_total side c a p c' p' ls
unfolding apply_lines
closing_of-apply_lines side c a p c' p' [] bs = sym (+ℤ-zero _)
closing_of-apply_lines side c a p c' p' (l ∷ ls) bs =
    closing_of-apply_lines side c a p c' p' ls (upsert_balance c' p' l bs)
    ∙ rw (closing_of-upsert side c a p c' p' l bs) (+ℤ_assoc _ _ _)
