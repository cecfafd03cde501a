-- ===== src/Suppliers/Settled.antt =====
-- The two halves of the payables' invariant: allocations are covered, and the ledger is reconciled.
-- What the entry of a payment does to them.
use stock_flow.Suppliers.Coverage.Writes.{with_ledger-IsCovered, with_audit-IsCovered}
use stock_flow.Suppliers.Payments.{post_entry, payment_entry}
use stock_flow.Suppliers.Checks.{open_period_of, latest_open_period}
use stock_flow.Finance.GlEngine.{execute_post}
use stock_flow.Tx.{◌>>=◌, ok, bind_inv, Tx}
use stock_flow.Suppliers.Tables.{payment_audit, on_ledger, PaymentAudit, Payables}
use stock_flow.Finance.Tables.{Reference, Ledger, JournalLine}
use stock_flow.Finance.GlEngine.Journal.{
  execute_post_ok, IsReconciled, IsPosting-IsReconciled, IsPosting,
}
use stock_flow.Suppliers.Coverage.{IsCovered}
use stock_flow.Prelude.{
  ◌∷◌, ◌++◌, [], ◌≡◌, ◌∙◌, ⊤, sym, subst, inr, inl, arith, ap, Option-cases, List, ℕ,
}

abbrev pub IsSettled : Payables → Type 0
IsSettled s = IsCovered s × IsReconciled s.ledger

pub on_ledger_ok :
    {A : Type 0} (work : Tx Ledger A) (s t : Payables) (a : A)
    → on_ledger work s ≡ (ok a, t)
    → (work s.ledger ≡ (ok a, t.ledger)) × (record s { ledger = t.ledger } ≡ t)
unfolding on_ledger
on_ledger_ok work s t a e =
    let whole : record s { ledger = (work s.ledger).1 } ≡ t = ap (λ p. p.1) e in
    (
      λ i. ((e i).0, (e i).1.ledger),
      ap (λ l. record s { ledger = l }) (sym (ap Payables.ledger whole)) ∙ whole,
    )

open_period_of_reads :
    (company : ℕ) (s t : Payables) (period : ℕ) → open_period_of company s ≡ (ok period, t) → s ≡ t
unfolding open_period_of
open_period_of_reads company s t period e =
    elim (Option-cases (latest_open_period company s.ledger.periods)) [
      | inl lost ↦ absurd (ground (arith, e, lost))
      | inr (p, found) ↦ ground (arith, e, found)
    ]

module _ (company user date : ℕ) (reference : Reference) (lines : List JournalLine) where
  -- A posted entry: the ledger has it, and nothing else changed but the audit log.
  pub record IsEntered (s t : Payables) : Type 0 where
    pub period : ℕ
    pub entry : ℕ
    pub posting :
        IsPosting (payment_entry company period date reference user lines) s.ledger entry t.ledger
    pub kept : record s { ledger = t.ledger; audit = t.audit } ≡ t

  pub post_entry_ok :
      (note : PaymentAudit) (s t : Payables) (x : ⊤)
      → post_entry company user date reference lines note s ≡ (ok x, t)
      → IsEntered s t
  unfolding post_entry
  post_entry_ok note s t x e =
      let (period, u, opened, rest) =
        bind_inv (open_period_of company)
          (λ period.
            on_ledger (execute_post (payment_entry company period date reference user lines))
            >>= λ _. payment_audit note)
          s t x e in
      let here : s ≡ u = open_period_of_reads company s u period opened in
      let (entry, v, done, noted) =
        bind_inv (on_ledger (execute_post (payment_entry company period date reference user lines)))
          (λ _. payment_audit note) u t x rest in
      let input = payment_entry company period date reference user lines in
      let (ran, kept) = on_ledger_ok (execute_post input) u v entry done in
      let written : (execute_post input u.ledger).1 ≡ t.ledger =
        ap (λ p. p.1) ran ∙ ap (λ p. p.1.ledger) noted in
      let whole : record u { ledger = v.ledger; audit = v.audit ++ (note ∷ []) } ≡ t =
        ap {A = Payables} {B = Payables} (λ w. record w { audit = v.audit ++ (note ∷ []) }) kept
        ∙ ap (λ p. p.1) noted in
      let entered : IsEntered u t = record {
        period = period;
        entry = entry;
        posting =
            subst (IsPosting input u.ledger entry) written
              (execute_post_ok input u.ledger (ap (λ p. p.0) ran));
        kept =
            ap (λ (w : Payables). record u { ledger = w.ledger; audit = w.audit }) (sym whole)
            ∙ whole;
      } in
      subst (λ w. IsEntered w t) (sym here) entered

  pub entered-IsSettled : (s t : Payables) → IsEntered s t → IsSettled s → IsSettled t
  entered-IsSettled s t done (covered, balanced) = (
    subst IsCovered done.kept
        (with_audit-IsCovered _ (with_ledger-IsCovered s covered t.ledger) t.audit),
    IsPosting-IsReconciled (payment_entry company done.period date reference user lines) s.ledger
        t.ledger done.entry done.posting balanced,
  )
