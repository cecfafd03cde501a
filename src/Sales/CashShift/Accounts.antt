-- ===== src/Sales/CashShift/Accounts.antt =====
-- The accounts that a shift posts to: what `resolveDrawerAccount`, `resolveCounterpartAccount` and
-- `resolveSystemAccount` answer (backend/src/modules/sales/services/cash-shift.service.ts).
use stock_flow.Tx.{ok}
use stock_flow.Suppliers.Checks.{is_account_coded}
use stock_flow.Sales.CashShift.{
  resolve_system_account, resolve_drawer_account, resolve_counterpart_account, register_drawer,
  linked_chart, is_profit_or_loss, is_live_register, is_live_chart, is_counterpart, is_asset,
  is_account_of, drawer_chart, assert_drawer_account, Till, CashRegister,
}
use stock_flow.Finance.Tables.{AccountType, Account}
use stock_flow.Prelude.{
  ◌⊎◌, ◌≢◌, ◌≡◌, ◌∷◌, ◌∙◌, ◌==◌, ℕ, true, some, refl, none, inr, inl, find_many, find_first, false,
  [], Option, List, Option-cases, Bool-cases, arith,
}

-- The family fallback of the drawer: the live account of the company with the code 1010.
abbrev pub IsFallback : ℕ → List Account → Account → Type 0
IsFallback company accounts a = find_first (is_account_coded company 1010) accounts ≡ some a

-- The account that a register is linked to, or the fallback if there is no link, or a dead one.
abbrev pub IsLinked : Option ℕ → ℕ → List Account → Account → Type 0
IsLinked none company accounts a = IsFallback company accounts a
IsLinked (some k) company accounts a =
    (find_first (is_live_chart k company) accounts ≡ some a)
    ⊎ ((find_first (is_live_chart k company) accounts ≡ none) × IsFallback company accounts a)

-- The drawer of the live registers of a warehouse, which is ambiguous if there are several.
abbrev pub IsDrawerOf : List CashRegister → ℕ → ℕ → List Account → Account → Type 0
IsDrawerOf [] company currency accounts a = IsFallback company accounts a
IsDrawerOf (r ∷ []) company currency accounts a =
    (r.currency ≡ currency) × IsLinked r.chart_account company accounts a
IsDrawerOf (r ∷ q ∷ rs) company currency accounts a = ⊥

-- The drawer of a shift is an ASSET account.
abbrev pub IsDrawer : ℕ → ℕ → ℕ → Till → ℕ → Type 0
IsDrawer company warehouse currency s drawer =
    (a : Account) × (a.id ≡ drawer)
    × (a.account_type ≡ AccountType.asset)
    × IsDrawerOf (find_many (is_live_register company warehouse) s.registers) company currency
        s.books.accounts a

asset_type : (t : AccountType) → is_asset t ≡ true → t ≡ AccountType.asset
asset_type AccountType.asset e = refl
asset_type AccountType.liability e = absurd (cc)
asset_type AccountType.equity e = absurd (cc)
asset_type AccountType.revenue e = absurd (cc)
asset_type AccountType.expense e = absurd (cc)

asserted :
    (o : Option Account) (drawer : ℕ)
    → assert_drawer_account o ≡ ok drawer
    → (a : Account) × (o ≡ some a) × (a.id ≡ drawer) × (a.account_type ≡ AccountType.asset)
asserted none drawer e = absurd (cc)
asserted (some a) drawer e = elim (Bool-cases (is_asset a.account_type)) [
  | inl t ↦ (a, refl, ground (arith, e, t), asset_type a.account_type t)
  | inr n ↦ absurd (ground (arith, e, n))
]

linked_chart_ok :
    (link : Option ℕ) (company : ℕ) (accounts : List Account) (a : Account)
    → drawer_chart company accounts (linked_chart link company accounts) ≡ some a
    → IsLinked link company accounts a
linked_chart_ok none company accounts a e = e
linked_chart_ok (some k) company accounts a e =
    elim (Option-cases (find_first (is_live_chart k company) accounts)) [
      | inl dead ↦ inr (dead, ground (arith, e, dead))
      | inr (b, live) ↦ inl (live ∙ ground (arith, e, live))
    ]

register_drawer_ok :
    (registers : List CashRegister) (company currency : ℕ) (accounts : List Account) (drawer : ℕ)
    → register_drawer company currency accounts registers ≡ ok drawer
    → (a : Account) × (a.id ≡ drawer)
      × (a.account_type ≡ AccountType.asset)
      × IsDrawerOf registers company currency accounts a
register_drawer_ok [] company currency accounts drawer e =
    let (a, found, this, kind) = asserted (drawer_chart company accounts none) drawer e in
    (a, this, kind, found)
register_drawer_ok (r ∷ []) company currency accounts drawer e =
    elim (Bool-cases (r.currency == currency)) [
      | inr other ↦ absurd (ground (arith, e, other))
      | inl same ↦
          let chart =
            drawer_chart company accounts (linked_chart r.chart_account company accounts) in
          let (a, found, this, kind) = asserted chart drawer (rw same at e) in
          (
            a,
            this,
            kind,
            (ground (arith, same), linked_chart_ok r.chart_account company accounts a found),
          )
    ]
register_drawer_ok (r ∷ q ∷ rs) company currency accounts drawer e = absurd (cc)

pub resolve_drawer_account_ok :
    (company warehouse currency : ℕ) (s : Till) (drawer : ℕ)
    → resolve_drawer_account company warehouse currency s ≡ ok drawer
    → IsDrawer company warehouse currency s drawer
resolve_drawer_account_ok company warehouse currency s drawer e =
    register_drawer_ok (find_many (is_live_register company warehouse) s.registers) company currency
      s.books.accounts drawer e

-- The counterpart of a movement: the named account of the company, live, of the type EXPENSE or
-- REVENUE, no system equity account, no cash or bank account and not the drawer.
pub record IsCounterpart (company id drawer : ℕ) (s : Till) (counterpart : ℕ) : Type 0 where
  pub account : Account
  pub found : find_first (is_account_of id company) s.books.accounts ≡ some account
  pub this : account.id ≡ counterpart
  pub active : account.is_active ≡ true
  pub not_deleted : account.is_deleted ≡ false
  pub profit_or_loss :
      (account.account_type ≡ AccountType.expense) ⊎ (account.account_type ≡ AccountType.revenue)
  pub not_opening_equity : account.code ≢ 3000
  pub not_retained : account.code ≢ 3200
  pub no_cash : account.is_cash_or_bank ≡ false
  pub no_drawer : account.id ≢ drawer

abbrev pub IsNamedCounterpart : ℕ → Option ℕ → ℕ → Till → ℕ → Type 0
IsNamedCounterpart company none drawer s counterpart = ⊥
IsNamedCounterpart company (some id) drawer s counterpart =
    IsCounterpart company id drawer s counterpart

profit_or_loss_type :
    (t : AccountType)
    → is_profit_or_loss t ≡ true
    → (t ≡ AccountType.expense) ⊎ (t ≡ AccountType.revenue)
profit_or_loss_type AccountType.asset e = absurd (cc)
profit_or_loss_type AccountType.liability e = absurd (cc)
profit_or_loss_type AccountType.equity e = absurd (cc)
profit_or_loss_type AccountType.revenue e = inr refl
profit_or_loss_type AccountType.expense e = inl refl

pub resolve_counterpart_account_ok :
    (company : ℕ) (named : Option ℕ) (drawer : ℕ) (s : Till) (counterpart : ℕ)
    → resolve_counterpart_account company named drawer s ≡ ok counterpart
    → IsNamedCounterpart company named drawer s counterpart
resolve_counterpart_account_ok company none drawer s counterpart e = absurd (cc)
resolve_counterpart_account_ok company (some id) drawer s counterpart e =
    elim (Option-cases (find_first (is_account_of id company) s.books.accounts)) [
      | inl lost ↦ absurd (ground (arith, e, lost))
      | inr (a, there) ↦ elim (Bool-cases (is_counterpart drawer a)) [
        | inr unfit ↦ absurd (ground (arith, e, there, unfit))
        | inl fit ↦ record {
          account = a;
          found = there;
          this = ground (arith, e, there, fit);
          active = ground (arith, fit);
          not_deleted = ground (arith, fit);
          profit_or_loss = profit_or_loss_type a.account_type (ground (arith, fit));
          not_opening_equity = λ h. ground (arith, fit, h);
          not_retained = λ h. ground (arith, fit, h);
          no_cash = ground (arith, fit);
          no_drawer = λ h. ground (arith, fit, h);
        }
      ]
    ]

pub resolve_system_account_ok :
    (company code : ℕ) (s : Till) (gap : ℕ)
    → resolve_system_account company code s ≡ ok gap
    → (a : Account) × (find_first (is_account_coded company code) s.books.accounts ≡ some a)
      × (a.id ≡ gap)
resolve_system_account_ok company code s gap e =
    elim (Option-cases (find_first (is_account_coded company code) s.books.accounts)) [
      | inl lost ↦ absurd (ground (arith, e, lost))
      | inr (a, there) ↦ (a, there, ground (arith, e, there))
    ]
