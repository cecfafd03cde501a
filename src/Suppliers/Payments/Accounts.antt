-- ===== src/Suppliers/Payments/Accounts.antt =====
-- The two accounts that the entry of a payment to a supplier moves money between: what
-- `resolveCreditAccountId` and `getAccountsPayableAccountId` answer
-- (backend/src/modules/suppliers/services/supplier-payments.service.ts).
use stock_flow.Tx.{ok}
use stock_flow.Suppliers.Tables.{Payables, MoneyAccount}
use stock_flow.Suppliers.Checks.{
  resolve_accounts, linked_account, is_money_account, is_account_coded, credit_account,
  bank_chart_account, accounts_payable, AccountPair,
}
use stock_flow.Finance.Tables.{Account}
use stock_flow.SalesRefund.Allocation.{PaymentMethod}
use stock_flow.Prelude.{
  ◌≡◌, ◌∙◌, ℕ, sym, some, none, inr, inl, find_first, ap, Option, List, Option-cases, arith,
}

-- The account of the chart that a live cash or bank account of the company is linked to.
abbrev pub IsChartOf : ℕ → ℕ → List MoneyAccount → ℕ → Type 0
IsChartOf id company accounts k =
    (row : MoneyAccount) × (find_first (is_money_account id company) accounts ≡ some row)
    × (row.chart_account ≡ some k)

abbrev pub IsBankChart : Option ℕ → ℕ → Payables → ℕ → Type 0
IsBankChart none company s k = ⊥
IsBankChart (some id) company s k = IsChartOf id company s.bank_accounts k

-- Cash is paid from the cash account that is named, all else from the bank account.
abbrev pub IsPaidFrom : PaymentMethod → Option ℕ → Option ℕ → ℕ → Payables → ℕ → Type 0
IsPaidFrom PaymentMethod.cash (some id) bank company s k = IsChartOf id company s.cash_accounts k
IsPaidFrom method cash_account bank company s k = IsBankChart bank company s k

-- Accounts payable is the live account of the company with the code 2100.
abbrev pub IsAccountPair : PaymentMethod → Option ℕ → Option ℕ → ℕ → Payables → AccountPair → Type 0
IsAccountPair method cash_account bank company s pair =
    ((a : Account) × (find_first (is_account_coded company 2100) s.ledger.accounts ≡ some a)
      × (pair.payable ≡ a.id))
    × IsPaidFrom method cash_account bank company s pair.paid_from

linked_ok :
    (id company : ℕ) (accounts : List MoneyAccount) (k : ℕ)
    → linked_account id company accounts ≡ some k
    → IsChartOf id company accounts k
linked_ok id company accounts k e =
    elim (Option-cases (find_first (is_money_account id company) accounts)) [
      | inl lost ↦ absurd (ground (arith, e, lost))
      | inr (row, there) ↦ (row, there, ground (arith, e, there))
    ]

bank_ok :
    (bank : Option ℕ) (company : ℕ) (s : Payables) (k : ℕ)
    → bank_chart_account bank company s ≡ some k
    → IsBankChart bank company s k
bank_ok none company s k e = absurd (cc)
bank_ok (some id) company s k e = linked_ok id company s.bank_accounts k e

credit_account-IsPaidFrom :
    (method : PaymentMethod) (cash_account bank : Option ℕ) (company : ℕ) (s : Payables) (k : ℕ)
    → credit_account method cash_account bank company s ≡ some k
    → IsPaidFrom method cash_account bank company s k
credit_account-IsPaidFrom PaymentMethod.cash none bank company s k e = bank_ok bank company s k e
credit_account-IsPaidFrom PaymentMethod.cash (some id) bank company s k e =
    linked_ok id company s.cash_accounts k e
credit_account-IsPaidFrom PaymentMethod.card none bank company s k e = bank_ok bank company s k e
credit_account-IsPaidFrom PaymentMethod.card (some id) bank company s k e =
    bank_ok bank company s k e
credit_account-IsPaidFrom PaymentMethod.qr none bank company s k e = bank_ok bank company s k e
credit_account-IsPaidFrom PaymentMethod.qr (some id) bank company s k e = bank_ok bank company s k e
credit_account-IsPaidFrom PaymentMethod.bank_transfer none bank company s k e =
    bank_ok bank company s k e
credit_account-IsPaidFrom PaymentMethod.bank_transfer (some id) bank company s k e =
    bank_ok bank company s k e
credit_account-IsPaidFrom PaymentMethod.mobile_wallet none bank company s k e =
    bank_ok bank company s k e
credit_account-IsPaidFrom PaymentMethod.mobile_wallet (some id) bank company s k e =
    bank_ok bank company s k e
credit_account-IsPaidFrom PaymentMethod.gift_card none bank company s k e =
    bank_ok bank company s k e
credit_account-IsPaidFrom PaymentMethod.gift_card (some id) bank company s k e =
    bank_ok bank company s k e
credit_account-IsPaidFrom PaymentMethod.store_credit none bank company s k e =
    bank_ok bank company s k e
credit_account-IsPaidFrom PaymentMethod.store_credit (some id) bank company s k e =
    bank_ok bank company s k e

pub resolve_accounts_ok :
    (method : PaymentMethod) (cash_account bank : Option ℕ) (company : ℕ) (s t : Payables)
    (pair : AccountPair)
    → resolve_accounts method cash_account bank company s ≡ (ok pair, t)
    → (s ≡ t) × IsAccountPair method cash_account bank company s pair
unfolding resolve_accounts
resolve_accounts_ok method cash_account bank company s t pair e =
    elim (Option-cases (find_first (is_account_coded company accounts_payable) s.ledger.accounts)) [
      | inl lost ↦ absurd (ground (arith, e, lost))
      | inr (a, found) ↦ elim (Option-cases (credit_account method cash_account bank company s)) [
        | inl gone ↦ absurd (ground (arith, e, found, gone))
        | inr (k, there) ↦
            let payable_is : a.id ≡ pair.payable = ground (arith, e, found, there) in
            let paid_is : k ≡ pair.paid_from = ground (arith, e, found, there) in
            (
              ground (arith, e, found, there),
              (
                (a, found, sym payable_is),
                credit_account-IsPaidFrom method cash_account bank company s pair.paid_from
                    (there ∙ ap some paid_is),
              ),
            )
      ]
    ]
