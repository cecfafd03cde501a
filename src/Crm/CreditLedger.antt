-- ===== src/Crm/CreditLedger.antt =====
-- `CustomerCreditLedgerService` and `CustomerCreditLedgerRepository`
-- (backend/src/modules/crm/services and repositories). Amounts are integers of 0.0001 units, the scale
-- of the column and of `toFixed(4)`. The advisory lock makes the guarded inserts of one customer and
-- currency serial, which transactions are here anyway.
use stock_flow.Prelude.Int.{◌-ℤ◌, ◌+ℤ◌, ℤ, pos, ltb_ℤ, eq_ℤ}
use stock_flow.Tx.{
  ◌>>◌, ◌>>=◌, unique_violation, transaction, throw_if, pure, or_throw, ok, not_found, modify, gets,
  err, bad_request, Tx,
}
use stock_flow.SalesRefund.Allocation.{RefundPaymentAllocation, PaymentMethod}
use stock_flow.Prelude.{
  ℕ, ◌∷◌, ◌==◌, ◌++◌, ◌&&◌, ⊤, true, suc, some, not, none, length, if◌then◌else◌, find_many,
  find_first, false, any_where, [], Option, List, Bool,
}
pub mod Balances
pub mod Changes
pub mod Operations
pub mod Refinement
pub mod Outcome

pub data Direction : Type 0 where
  issued spent adjusted : Direction

pub data CreditReference : Type 0 where
  sale_payment refund_allocation full_refund manual_adjustment : CreditReference

pub record CreditTransaction : Type 0 where
  pub id : ℕ
  pub company : ℕ
  pub customer : ℕ
  pub direction : Direction
  pub amount : ℤ
  pub currency : ℕ
  pub reference_type : CreditReference
  pub reference_id : ℕ
  pub created_by : ℕ
  pub is_deleted : Bool

pub record Customer : Type 0 where
  pub id : ℕ
  pub company : ℕ

pub data CreditAction : Type 0 where
  audit_skipped audit_adjusted audit_issued : CreditAction

pub record CreditAudit : Type 0 where
  pub company : ℕ
  pub user : ℕ
  pub entity_id : ℕ
  pub action : CreditAction
  pub amount : ℤ

pub record CreditBook : Type 0 where
  pub customers : List Customer
  pub transactions : List CreditTransaction
  pub audit : List CreditAudit
  pub next_id : ℕ

-- ISSUED counts up, SPENT and ADJUSTED count down.
abbrev pub signed : Direction → ℤ → ℤ
signed issued a = a
signed spent a = pos 0 -ℤ a
signed adjusted a = pos 0 -ℤ a

abbrev pub direction_code : Direction → ℕ
direction_code issued = 0
direction_code spent = 1
direction_code adjusted = 2

abbrev pub reference_code : CreditReference → ℕ
reference_code sale_payment = 0
reference_code refund_allocation = 1
reference_code full_refund = 2
reference_code manual_adjustment = 3

-- where { companyId, customerId, currency, deletedAt: null }
abbrev pub is_fact_of : ℕ → ℕ → ℕ → CreditTransaction → Bool
is_fact_of company customer currency t =
    t.company == company && t.customer == customer && t.currency == currency && not t.is_deleted

-- The signed sum of the guarded insert.
abbrev pub balance : ℕ → ℕ → ℕ → List CreditTransaction → ℤ
balance company customer currency [] = pos 0
balance company customer currency (t ∷ ts) =
    if is_fact_of company customer currency t
    then signed t.direction t.amount +ℤ balance company customer currency ts
    else balance company customer currency ts

-- @@unique([companyId, customerId, direction, referenceType, referenceId, currency])
abbrev pub same_fact : CreditTransaction → CreditTransaction → Bool
same_fact a b =
    b.company == a.company
    && b.customer == a.customer
    && direction_code b.direction == direction_code a.direction
    && reference_code b.reference_type == reference_code a.reference_type
    && b.reference_id == a.reference_id
    && b.currency == a.currency

-- An insert of one row, under the unique constraint.
unfoldable pub insert_fact : CreditTransaction → Tx CreditBook CreditTransaction
insert_fact row s =
    if any_where (same_fact row) s.transactions
    then (err unique_violation, s)
    else (ok row, record s { transactions = s.transactions ++ (row ∷ []); next_id = suc s.next_id })

-- `INSERT … SELECT … WHERE balance >= amount`: no row if the balance does not cover the amount.
unfoldable pub insert_with_balance_guard :
    CreditTransaction → Tx CreditBook (Option CreditTransaction)
insert_with_balance_guard row s =
    if ltb_ℤ (balance row.company row.customer row.currency s.transactions) row.amount
    then (ok none, s)
    else (insert_fact row >>= λ r. pure (some r)) s

-- Who acts, for whom, in which currency.
pub record CreditFacts : Type 0 where
  pub company : ℕ
  pub customer : ℕ
  pub currency : ℕ
  pub created_by : ℕ

abbrev pub fact_row : CreditFacts → Direction → ℤ → CreditReference → ℕ → ℕ → CreditTransaction
fact_row f direction amount reference_type reference_id id = record {
  id = id;
  company = f.company;
  customer = f.customer;
  direction = direction;
  amount = amount;
  currency = f.currency;
  reference_type = reference_type;
  reference_id = reference_id;
  created_by = f.created_by;
  is_deleted = false;
}

unfoldable pub atomic_spend : CreditFacts → ℕ → ℤ → Tx CreditBook (Option CreditTransaction)
atomic_spend f sale_id amount s =
    insert_with_balance_guard (fact_row f spent amount sale_payment sale_id s.next_id) s

unfoldable pub create_issued :
    CreditFacts → ℤ → CreditReference → ℕ → Tx CreditBook CreditTransaction
create_issued f amount reference_type reference_id s =
    insert_fact (fact_row f issued amount reference_type reference_id s.next_id) s

-- An adjustment refers to its own row; a write-off is guarded, a top-up is not.
unfoldable pub create_manual_adjustment :
    CreditFacts → Direction → ℤ → Tx CreditBook (Option CreditTransaction)
create_manual_adjustment f adjusted amount s =
    insert_with_balance_guard (fact_row f adjusted amount manual_adjustment s.next_id s.next_id) s
create_manual_adjustment f direction amount s =
    (insert_fact (fact_row f issued amount manual_adjustment s.next_id s.next_id) >>= λ r.
    pure (some r))
      s

pub record CreditPayment : Type 0 where
  pub method : PaymentMethod
  pub amount : ℤ

-- CREDIT_METHODS
abbrev pub is_credit_method : PaymentMethod → Bool
is_credit_method PaymentMethod.store_credit = true
is_credit_method PaymentMethod.gift_card = true
is_credit_method m = false

abbrev pub credit_amount : List CreditPayment → ℤ → ℤ
credit_amount [] total = total
credit_amount (p ∷ ps) total =
    credit_amount ps (if is_credit_method p.method then total +ℤ p.amount else total)

abbrev pub is_zero_ℤ : ℤ → Bool
is_zero_ℤ a = eq_ℤ a (pos 0)

-- The customer of the sale, if it has one, with the rest of the facts.
pub record SaleCredit : Type 0 where
  pub company : ℕ
  pub customer : Option ℕ
  pub currency : ℕ
  pub created_by : ℕ

abbrev pub facts_of : SaleCredit → ℕ → CreditFacts
facts_of f customer = record {
  company = f.company;
  customer = customer;
  currency = f.currency;
  created_by = f.created_by;
}

-- `spend`, in the caller's transaction.
unfoldable pub spend :
    SaleCredit → ℕ → List CreditPayment → Tx CreditBook (Option CreditTransaction)
spend f sale_id payments =
    let amount = credit_amount payments (pos 0) in
    if is_zero_ℤ amount then pure none else (do
      customer ← or_throw f.customer bad_request
      inserted ← atomic_spend (facts_of f customer) sale_id amount
      row ← or_throw inserted bad_request
      pure (some row))

abbrev pub is_credit_allocation : RefundPaymentAllocation → Bool
is_credit_allocation a = is_credit_method a.method

-- One ISSUED row for each allocation, with the ids that the allocations have.
unfoldable pub issue_each :
    CreditFacts → List (ℕ × RefundPaymentAllocation) → Tx CreditBook (List CreditTransaction)
issue_each f [] = pure []
issue_each f ((id, a) ∷ as') = do
  row ← create_issued f (pos a.amount) refund_allocation id
  rows ← issue_each f as'
  pure (row ∷ rows)

unfoldable pub issue_refund_credit :
    SaleCredit → List (ℕ × RefundPaymentAllocation) → Tx CreditBook (List CreditTransaction)
issue_refund_credit f allocations =
    let eligible =
      find_many (λ (x : ℕ × RefundPaymentAllocation). is_credit_allocation x.1) allocations in
    if length eligible == 0
    then pure []
    else (do customer ← or_throw f.customer bad_request; issue_each (facts_of f customer) eligible)

abbrev pub credit_audit : CreditAudit → Tx CreditBook ⊤
credit_audit a = modify λ s. record s { audit = s.audit ++ (a ∷ []) }

-- Without a customer only the anomaly is noted.
abbrev pub legacy_fact : SaleCredit → ℕ → ℤ → Option ℕ → Tx CreditBook (Option CreditTransaction)
legacy_fact f refund amount none = do
  credit_audit (record {
    company = f.company;
    user = f.created_by;
    entity_id = refund;
    action = audit_skipped;
    amount = amount;
  })
  pure none
legacy_fact f refund amount (some customer) = do
  row ← create_issued (facts_of f customer) amount full_refund refund
  pure (some row)

unfoldable pub issue_legacy_refund_credit :
    SaleCredit → ℕ → List CreditPayment → Tx CreditBook (Option CreditTransaction)
issue_legacy_refund_credit f refund payments =
    let amount = credit_amount payments (pos 0) in
    if not (ltb_ℤ (pos 0) amount) then pure none else legacy_fact f refund amount f.customer

abbrev pub abs_of : ℤ → ℤ
abs_of a = if ltb_ℤ a (pos 0) then pos 0 -ℤ a else a

abbrev pub is_customer : ℕ → ℕ → Customer → Bool
is_customer id company c = c.id == id && c.company == company

unfoldable pub adjust_within : ℤ → CreditFacts → Tx CreditBook CreditTransaction
adjust_within amount f = do
  found ← gets λ s. find_first (is_customer f.customer f.company) s.customers
  _ ← or_throw found not_found
  inserted ←
      create_manual_adjustment f (if ltb_ℤ amount (pos 0) then adjusted else issued) (abs_of amount)
  row ← or_throw inserted bad_request
  credit_audit (record {
    company = f.company;
    user = f.created_by;
    entity_id = row.id;
    action = if ltb_ℤ amount (pos 0) then audit_adjusted else audit_issued;
    amount = abs_of amount;
  })
  pure row

-- `adjust`; a negative amount writes off.
unfoldable pub adjust_credit : ℤ → CreditFacts → Tx CreditBook CreditTransaction
adjust_credit amount f =
    throw_if (is_zero_ℤ amount) bad_request >> transaction (adjust_within amount f)

pub record CreditTotals : Type 0 where
  pub balance : ℤ
  pub issued_total : ℤ
  pub spent_total : ℤ
  pub adjusted_total : ℤ

abbrev pub zero_totals : CreditTotals
zero_totals = record {
  balance = pos 0;
  issued_total = pos 0;
  spent_total = pos 0;
  adjusted_total = pos 0;
}

abbrev pub is_direction : Direction → CreditTransaction → Bool
is_direction d t = direction_code t.direction == direction_code d

abbrev pub sum_amount : List CreditTransaction → ℤ
sum_amount [] = pos 0
sum_amount (t ∷ ts) = t.amount +ℤ sum_amount ts

-- `groupBy` by direction with `_sum`: a group for each direction that has rows.
abbrev pub group_of : Direction → List CreditTransaction → List (Direction × ℤ)
group_of d ts =
    let group = find_many (is_direction d) ts in
    if length group == 0 then [] else (d, sum_amount group) ∷ []

abbrev pub groups_by_direction : List CreditTransaction → List (Direction × ℤ)
groups_by_direction ts = group_of issued ts ++ (group_of spent ts ++ group_of adjusted ts)

abbrev pub add_group : CreditTotals → Direction × ℤ → CreditTotals
add_group t (issued, sum) = record t {
  issued_total = t.issued_total +ℤ sum;
  balance = t.balance +ℤ sum;
}
add_group t (spent, sum) = record t {
  spent_total = t.spent_total +ℤ sum;
  balance = t.balance -ℤ sum;
}
add_group t (adjusted, sum) = record t {
  adjusted_total = t.adjusted_total +ℤ sum;
  balance = t.balance -ℤ sum;
}

abbrev pub add_groups : CreditTotals → List (Direction × ℤ) → CreditTotals
add_groups t [] = t
add_groups t (g ∷ gs) = add_groups (add_group t g) gs

-- `getBalances` for one currency; a customer without rows has a zero balance.
unfoldable pub get_balances : ℕ → ℕ → ℕ → Tx CreditBook CreditTotals
get_balances customer company currency = do
  found ← gets λ s. find_first (is_customer customer company) s.customers
  _ ← or_throw found not_found
  groups ←
      gets
        λ s. groups_by_direction (find_many (is_fact_of company customer currency) s.transactions)
  pure (if length groups == 0 then zero_totals else add_groups zero_totals groups)
