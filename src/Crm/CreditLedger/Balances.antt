-- ===== src/Crm/CreditLedger/Balances.antt =====
-- The balance of the guard and the totals of `getBalances`.
use stock_flow.Prelude.Int.{◌-ℤ◌, ◌+ℤ◌, ℤ, pos, int_laws, +ℤ-zero, zero-+ℤ}
use stock_flow.Prelude.{
  Option-cases, ◌∙◌, suc, none, append-nil, ◌⊎◌, sym, ap, ◌≡◌, ℕ, [], ◌∷◌, ◌++◌, List, find_many,
  length, Bool-cases, inl, inr, false, refl, if◌then◌else◌, arith, find_first, some, ◌==◌,
}
use stock_flow.Tx.{not_found, err, ok}
use stock_flow.Crm.CreditLedger.{
  CreditTransaction, Direction, issued, spent, adjusted, is_fact_of, balance, signed, sum_amount,
  is_direction, group_of, groups_by_direction, add_groups, add_group, zero_totals, get_balances,
  CreditBook, CreditTotals, is_customer,
}

module _ (company customer currency : ℕ) where
  -- A row changes the balance of its own customer and currency by its signed amount.
  pub balance-append :
      (xs : List CreditTransaction) (t : CreditTransaction)
      → balance company customer currency (xs ++ (t ∷ []))
        ≡ balance company customer currency xs
          +ℤ (if is_fact_of company customer currency t then signed t.direction t.amount else pos 0)
  balance-append [] t = elim (Bool-cases (is_fact_of company customer currency t)) [
    | inl y ↦ rw (y, +ℤ-zero (signed t.direction t.amount)) (omega int_laws)
    | inr n ↦ rw n (omega int_laws)
  ]
  balance-append (x ∷ xs) t =
      let ih = balance-append xs t in
      elim (Bool-cases (is_fact_of company customer currency x)) [
        | inl y ↦ rw (y, ih) (omega int_laws)
        | inr n ↦ rw (n, ih) refl
      ]

-ℤ_zero : (a : ℤ) → a -ℤ pos 0 ≡ a
-ℤ_zero a = omega int_laws

-- The balance of rows that all count is the difference of the three sums.
abbrev net : List CreditTransaction → ℤ
net ts =
    sum_amount (find_many (is_direction issued) ts)
    -ℤ sum_amount (find_many (is_direction spent) ts)
    -ℤ sum_amount (find_many (is_direction adjusted) ts)

Direction-cases : (d : Direction) → (d ≡ issued) ⊎ ((d ≡ spent) ⊎ (d ≡ adjusted))
Direction-cases issued = inl refl
Direction-cases spent = inr (inl refl)
Direction-cases adjusted = inr (inr refl)

net_row :
    (t : CreditTransaction) (ts : List CreditTransaction)
    → net (t ∷ ts) ≡ signed t.direction t.amount +ℤ net ts
net_row t ts = elim (Direction-cases t.direction) [
  | inl e ↦ simp e (omega int_laws)
  | inr (inl e) ↦ simp e (omega int_laws)
  | inr (inr e) ↦ simp e (omega int_laws)
]

module _ (company customer currency : ℕ) where
  balance_net :
      (ts : List CreditTransaction)
      → balance company customer currency ts
        ≡ net (find_many (is_fact_of company customer currency) ts)
  balance_net [] = omega int_laws
  balance_net (t ∷ ts) =
      let ih = balance_net ts in
      elim (Bool-cases (is_fact_of company customer currency t)) [
        | inl y ↦ rw (y, ih) (sym (net_row t (find_many (is_fact_of company customer currency) ts)))
        | inr n ↦ rw (n, ih) refl
      ]

abbrev with_sums : CreditTotals → List CreditTransaction → CreditTotals
with_sums t ts =
    add_group
      (add_group (add_group t (issued, sum_amount (find_many (is_direction issued) ts)))
        (spent, sum_amount (find_many (is_direction spent) ts)))
      (adjusted, sum_amount (find_many (is_direction adjusted) ts))

add_group_zero : (t : CreditTotals) (d : Direction) → add_group t (d, pos 0) ≡ t
add_group_zero t issued = rw (+ℤ-zero t.issued_total, +ℤ-zero t.balance) refl
add_group_zero t spent = rw (+ℤ-zero t.spent_total, -ℤ_zero t.balance) refl
add_group_zero t adjusted = rw (+ℤ-zero t.adjusted_total, -ℤ_zero t.balance) refl

add_groups_one :
    (t : CreditTotals) (d : Direction) (group : List CreditTransaction) (gs : List (Direction × ℤ))
    → add_groups t ((if length group == 0 then [] else (d, sum_amount group) ∷ []) ++ gs)
      ≡ add_groups (add_group t (d, sum_amount group)) gs
add_groups_one t d [] gs = ap (λ u. add_groups u gs) (sym (add_group_zero t d))
add_groups_one t d (x ∷ group) gs =
    let some_rows : (suc (length group) == 0) ≡ false = ground arith in rw some_rows refl

add_groups_all :
    (t : CreditTotals) (ts : List CreditTransaction)
    → add_groups t (groups_by_direction ts) ≡ with_sums t ts
add_groups_all t ts =
    let sum = λ (d : Direction). sum_amount (find_many (is_direction d) ts) in
    let after_issued = add_group t (issued, sum issued) in
    let after_spent = add_group after_issued (spent, sum spent) in
    add_groups_one t issued (find_many (is_direction issued) ts)
      (group_of spent ts ++ group_of adjusted ts)
    ∙ add_groups_one after_issued spent (find_many (is_direction spent) ts) (group_of adjusted ts)
    ∙ ap (add_groups after_spent) (sym (append-nil (group_of adjusted ts)))
    ∙ add_groups_one after_spent adjusted (find_many (is_direction adjusted) ts) []

totals_of :
    (gs : List (Direction × ℤ))
    → (if length gs == 0 then zero_totals else add_groups zero_totals gs)
      ≡ add_groups zero_totals gs
totals_of [] = refl
totals_of (g ∷ gs) =
    let some_groups : (suc (length gs) == 0) ≡ false = ground arith in rw some_groups refl

module _ (customer company currency : ℕ) (s : CreditBook) where
  -- The rows of the customer in the currency that have the direction.
  abbrev pub total : Direction → ℤ
  total d =
      sum_amount (
        find_many (is_direction d)
          (find_many (is_fact_of company customer currency) s.transactions))

  sums_balance :
      with_sums zero_totals (find_many (is_fact_of company customer currency) s.transactions)
      ≡ record {
        balance = balance company customer currency s.transactions;
        issued_total = total issued;
        spent_total = total spent;
        adjusted_total = total adjusted;
      }
  sums_balance =
      let net_balance = balance_net company customer currency s.transactions in
      rw (zero-+ℤ (total issued), zero-+ℤ (total spent), zero-+ℤ (total adjusted), net_balance) refl

  -- For a customer of the company, `getBalances` answers what was issued, spent and adjusted in the
  -- currency, and as the balance the signed sum that the guarded insert compares with, which is what
  -- was issued less what was spent and adjusted; it changes nothing. For any other customer it
  -- answers not found.
  pub get_balances_lem :
      get_balances customer company currency s
        ≡ (elim (find_first (is_customer customer company) s.customers) [
          | none ↦ (err not_found, s)
          | some c ↦ (
            ok (record {
              balance = balance company customer currency s.transactions;
              issued_total = total issued;
              spent_total = total spent;
              adjusted_total = total adjusted;
            }),
            s,
          )
        ])
      × (balance company customer currency s.transactions
          ≡ total issued -ℤ total spent -ℤ total adjusted)
  unfolding get_balances
  get_balances_lem =
      let rows = find_many (is_fact_of company customer currency) s.transactions in
      let answered =
        totals_of (groups_by_direction rows) ∙ add_groups_all zero_totals rows ∙ sums_balance in
      let difference = balance_net company customer currency s.transactions in
      (
        elim (Option-cases (find_first (is_customer customer company) s.customers)) [
          | inl e ↦ rw e refl
          | inr (c, e) ↦ rw e (ap (λ t. (ok t, s)) answered)
        ],
        difference,
      )
