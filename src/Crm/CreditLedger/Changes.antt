-- ===== src/Crm/CreditLedger/Changes.antt =====
-- The credit ledger as a map from company, customer and currency to a balance, and what a row that
-- is inserted does to it.
use stock_flow.Crm.CreditLedger.Balances.{balance-append}
use stock_flow.Tx.{unique_violation, pure, ok, err, bind_inv, Result}
use stock_flow.Crm.CreditLedger.{
  signed, same_fact, is_zero_ℤ, is_fact_of, insert_with_balance_guard, insert_fact, facts_of,
  fact_row, balance, SaleCredit, Direction, CreditTransaction, CreditReference, CreditFacts,
  CreditBook,
}
use stock_flow.Prelude.Int.{◌≤ℤ◌, ◌-ℤ◌, ◌+ℤ◌, ℤ, pos, ltb_ℤ, int_laws, +ℤ_assoc, +ℤ-zero}
use stock_flow.Prelude.{
  ◌⊎◌, ◌≡◌, ◌∷◌, ◌∙◌, ◌==◌, ◌++◌, ◌&&◌, true, sym, some, refl, none, inr, inl, if◌then◌else◌, arith,
  ap, any_where, [], Option, Bool-cases, ℕ,
}

abbrev pub CreditBalances : Type 0
CreditBalances = ℕ → ℕ → ℕ → ℤ

abbrev pub balances_of : CreditBook → CreditBalances
balances_of s company customer currency = balance company customer currency s.transactions

-- One balance moves by an amount, the others stay.
abbrev pub move_by : CreditFacts → ℤ → CreditBalances → CreditBalances
move_by f d b company customer currency =
    if f.company == company && f.customer == customer && f.currency == currency
    then b company customer currency +ℤ d
    else b company customer currency

abbrev pub MovesBy : CreditFacts → ℤ → CreditBook → CreditBook → Type 0
MovesBy f d s t =
    (company customer currency : ℕ)
    → balances_of t company customer currency
      ≡ move_by f d (balances_of s) company customer currency

-- The book did not get more debt: a balance that falls does not fall below zero.
abbrev pub Covered : CreditFacts → ℤ → CreditBook → Type 0
Covered f d s = (pos 0 ≤ℤ d) ⊎ (pos 0 ≤ℤ balances_of s f.company f.customer f.currency +ℤ d)

pub same_balances : (f : CreditFacts) (s : CreditBook) → MovesBy f (pos 0) s s
same_balances f s company customer currency =
    elim (Bool-cases (f.company == company && f.customer == customer && f.currency == currency)) [
      | inl y ↦ rw y (sym (+ℤ-zero (balances_of s company customer currency)))
      | inr n ↦ rw n refl
    ]

pub moves_after :
    (f : CreditFacts) (d e : ℤ) (s t u : CreditBook)
    → MovesBy f d s t
    → MovesBy f e t u
    → MovesBy f (d +ℤ e) s u
moves_after f d e s t u first second company customer currency =
    let one = first company customer currency in
    let two = second company customer currency in
    elim (Bool-cases (f.company == company && f.customer == customer && f.currency == currency)) [
      | inl y ↦
          let one' : balances_of t company customer currency
              ≡ balances_of s company customer currency +ℤ d =
            rw y at one in
          let two' : balances_of u company customer currency
              ≡ balances_of t company customer currency +ℤ e =
            rw y at two in
          rw (y, two', one') (+ℤ_assoc _ d e)
      | inr n ↦
          let one' : balances_of t company customer currency
              ≡ balances_of s company customer currency =
            rw n at one in
          let two' : balances_of u company customer currency
              ≡ balances_of t company customer currency =
            rw n at two in
          rw n (two' ∙ one')
    ]

-- An appended fact moves its balance by its signed amount.
pub fact_moves :
    (f : CreditFacts) (d : Direction) (amount : ℤ) (r : CreditReference) (reference id : ℕ)
    (s t : CreditBook)
    → t.transactions ≡ s.transactions ++ (fact_row f d amount r reference id ∷ [])
    → MovesBy f (signed d amount) s t
fact_moves f d amount r reference id s t e company customer currency =
    let row = fact_row f d amount r reference id in
    ap (balance company customer currency) e
    ∙ balance-append company customer currency s.transactions row
    ∙ mine
  where
    mine :
        balances_of s company customer currency
          +ℤ (if is_fact_of company customer currency (fact_row f d amount r reference id)
              then signed d amount
              else pos 0)
        ≡ move_by f (signed d amount) (balances_of s) company customer currency
    mine =
        elim (Bool-cases
          (f.company == company && f.customer == customer && f.currency == currency)) [
            | inl y ↦ rw y refl
            | inr n ↦ rw n (+ℤ-zero (balances_of s company customer currency))
          ]

pub insert_fact_ok :
    (row : CreditTransaction) (s t : CreditBook) (r : CreditTransaction)
    → insert_fact row s ≡ (ok r, t)
    → (r ≡ row) × (t.transactions ≡ s.transactions ++ (row ∷ []))
unfolding insert_fact
insert_fact_ok row s t r e = elim (Bool-cases (any_where (same_fact row) s.transactions)) [
  | inl y ↦
      let refused : ◌≡◌ {A = Result CreditTransaction × CreditBook} (err unique_violation, s)
          (ok r, t) =
        rw y at e in
      absurd (cc)
  | inr n ↦ let inserted = rw n at e in (cc, sym (ap (λ p. p.1.transactions) inserted))
]

pub guard_ok :
    (row : CreditTransaction) (s t : CreditBook) (r : CreditTransaction)
    → insert_with_balance_guard row s ≡ (ok (some r), t)
    → (row.amount ≤ℤ balance row.company row.customer row.currency s.transactions)
      × (insert_fact row s ≡ (ok r, t))
unfolding insert_with_balance_guard
guard_ok row s t r e =
    elim (Bool-cases
      (ltb_ℤ (balance row.company row.customer row.currency s.transactions) row.amount)) [
        | inl y ↦
            let refused : ◌≡◌ {A = Result (Option CreditTransaction) × CreditBook} (ok none, s)
                (ok (some r), t) =
              rw y at e in
            absurd (cc)
        | inr n ↦
            let (q, u, done, same) =
              bind_inv (insert_fact row) (λ q. pure (some q)) s t (some r) (rw n at e) in
            (ground arith, cc)
      ]

pub covers : (b a : ℤ) → a ≤ℤ b → pos 0 ≤ℤ b +ℤ (pos 0 -ℤ a)
covers b a h = omega int_laws

pub zero_of : (a : ℤ) → is_zero_ℤ a ≡ true → a ≡ pos 0
zero_of a h = ground arith

-- The customer that a document's facts name.
abbrev pub owner_of : SaleCredit → Option ℕ → Option CreditFacts
owner_of f none = none
owner_of f (some c) = some (facts_of f c)

-- What a balance map may look like after a change by an amount.
abbrev pub Change : Option CreditFacts → ℤ → CreditBook → CreditBook → Type 0
Change none d s t =
    (company customer currency : ℕ)
    → balances_of t company customer currency ≡ balances_of s company customer currency
Change (some f) d s t = MovesBy f d s t × Covered f d s

pub idle-Change : (o : Option CreditFacts) (s : CreditBook) → Change o (pos 0) s s
idle-Change none s = λ company customer currency. refl
idle-Change (some f) s = (same_balances f s, inl (omega arith))
