-- ===== src/Idempotency/Business.antt =====
-- What an idempotent run does to the business tables: what its work does, once, or nothing.
use stock_flow.Idempotency.Running.{params}
use stock_flow.Idempotency.Reserving.{reserve_live, reserve_expired, reserve_absent}
use stock_flow.Tx.{
  bind_ok, bind_err, ◌>>◌, ◌>>=◌, transaction_inv, transaction_failed, throw, pure, err, conflict,
  bind_inv, Exception, run-cases, ok, Tx,
}
use stock_flow.Prelude.{
  ⊤, sym, subst, some, none, length, ◌≡◌, ◌∙◌, ℕ, zero, suc, refl, ltb, inr, inl, find_first, arith,
  ap, Option-cases, Option, Bool-cases,
}
use stock_flow.Idempotency.{
  reserve_key, complete, ReserveResult, without, run_with_idempotency, reserve_within, on_business,
  is_record_of, ReserveParams, Store,
}

module _ {S B : Type 0} (pending_body : B) (p : ReserveParams) where
  -- A reservation leaves the business tables alone.
  pub reserve_within-business :
      (fuel : ℕ) (s : Store S B) → (reserve_within pending_body fuel p s).1.business ≡ s.business
  reserve_within-business zero s = unfold reserve_within in refl
  reserve_within-business (suc fuel) s =
      elim (Option-cases (find_first (is_record_of p.company p.idempotency_key) s.records)) [
        | inl absent ↦ ap (λ x. x.1.business) (reserve_absent pending_body p s fuel absent)
        | inr (r, found) ↦ elim (Bool-cases (ltb p.now r.expires_at)) [
          | inl live ↦
              ap (λ x. x.1.business) (reserve_live pending_body p s fuel r found (ground arith))
          | inr expired ↦
              ap (λ x. x.1.business) (reserve_expired pending_body p s fuel r found (ground arith))
              ∙ reserve_within-business fuel (record s { records = without r.id s.records })
        ]
      ]

on_business_ok :
    {S B A : Type 0} (work : Tx S A) (s u : Store S B) (a : A)
    → on_business work s ≡ (ok a, u)
    → work s.business ≡ (ok a, u.business)
unfolding on_business
on_business_ok work s u a e = λ i. ((e i).0, (e i).1.business)

module _ {S B : Type 0} (pending_body : B) (to_json : B → B) (P : S → Type 0) (work : Tx S B) where
  complete-business :
      (company key status : ℕ) (body : B) (s t : Store S B) (x : ⊤)
      → complete to_json company key status body s ≡ (ok x, t)
      → s.business ≡ t.business
  unfolding complete
  complete-business company key status body s t x e = ap (λ p. p.1.business) e

  -- The rest of a run after its reservation.
  abbrev answer_of : ℕ → ℕ → ℕ → ReserveResult B → Tx (Store S B) (ℕ × B)
  answer_of company key status outcome = elim outcome [
    | ReserveResult.replayed stored body ↦ pure (stored, body)
    | ReserveResult.pending ↦ throw conflict
    | ReserveResult.created _ ↦
        (on_business work >>= λ body.
        complete to_json company key status body >> pure (status, body))
  ]

  answer_keeps :
      (company key status : ℕ) (outcome : ReserveResult B) (s t : Store S B) (answer : ℕ × B)
      → ((a : B) (u : S) → work s.business ≡ (ok a, u) → P u)
      → P s.business
      → answer_of company key status outcome s ≡ (ok answer, t)
      → P t.business
  answer_keeps company key status (ReserveResult.replayed stored body) s t answer good h e =
      subst P (ap (λ p. p.1.business) e) h
  answer_keeps company key status ReserveResult.pending s t answer good h e = absurd (cc)
  answer_keeps company key status (ReserveResult.created hash) s t answer good h e =
      let (body, u, ran, rest) =
        bind_inv (on_business work)
          (λ body. complete to_json company key status body >> pure (status, body)) s t answer e in
      let (x, v, stored, done) =
        bind_inv (complete to_json company key status body) (λ _. pure (status, body)) u t answer
          rest in
      let same : u.business ≡ t.business =
        complete-business company key status body u v x stored ∙ ap (λ p. p.1.business) done in
      subst P same (good body u.business (on_business_ok work s u body ran))

  pub run_ok :
      (key : Option ℕ) (company endpoint hash now status : ℕ) (s t : Store S B) (answer : ℕ × B)
      → ((a : B) (u : S) → work s.business ≡ (ok a, u) → P u)
      → P s.business
      → run_with_idempotency pending_body to_json key company endpoint hash now status work s
        ≡ (ok answer, t)
      → P t.business
  unfolding run_with_idempotency reserve_key
  run_ok none company endpoint hash now status s t answer good h e =
      let (body, u, ran, done) =
        bind_inv (on_business work) (λ body. pure (status, body)) s t answer
          (transaction_inv (on_business work >>= λ body. pure (status, body)) s t answer e) in
      subst P (ap (λ p. p.1.business) done)
        (good body u.business (on_business_ok work s u body ran))
  run_ok (some key) company endpoint hash now status s t answer good h e =
      let p = params company key endpoint hash now in
      let (outcome, u, held, rest) =
        bind_inv (reserve_key pending_body p) (answer_of company key status) s t answer (
          transaction_inv (reserve_key pending_body p >>= answer_of company key status) s t answer
            e) in
      let same : s.business ≡ u.business =
        sym (reserve_within-business pending_body p (suc (length s.records)) s)
        ∙ ap (λ q. q.1.business) held in
      answer_keeps company key status outcome u t answer
        (λ a v ran. good a v (subst (λ b. work b ≡ (ok a, v)) (sym same) ran)) (subst P same h) rest

  pub run_failed :
      (key : Option ℕ) (company endpoint hash now status : ℕ) (s t : Store S B) (x : Exception)
      → run_with_idempotency pending_body to_json key company endpoint hash now status work s
        ≡ (err x, t)
      → t ≡ s
  unfolding run_with_idempotency
  run_failed none company endpoint hash now status s t x e =
      transaction_failed (on_business work >>= λ body. pure (status, body)) s t x e
  run_failed (some key) company endpoint hash now status s t x e =
      transaction_failed
        (reserve_key pending_body (params company key endpoint hash now)
          >>= answer_of company key status)
        s t x e

  -- A property of the business tables that the work keeps when it succeeds is kept by the run.
  pub run_keeps :
      (key : Option ℕ) (company endpoint hash now status : ℕ) (s : Store S B)
      → ((a : B) (u : S) → work s.business ≡ (ok a, u) → P u)
      → P s.business
      → P
          (run_with_idempotency pending_body to_json key company endpoint hash now status work
            s).1.business
  run_keeps key company endpoint hash now status s good h =
      elim (run-cases
        (run_with_idempotency pending_body to_json key company endpoint hash now status work) s) [
          | inl (answer, t, e) ↦
              subst (λ q. P q.1.business) (sym e)
                (run_ok key company endpoint hash now status s t answer good h e)
          | inr (x, t, e) ↦
              subst (λ q. P q.1.business) (sym e)
                (subst (λ u. P u.business)
                  (sym (run_failed key company endpoint hash now status s t x e)) h)
        ]

on_business_reads :
    {S B A : Type 0} (work : Tx S A) (s : Store S B)
    → (work s.business).1 ≡ s.business
    → (on_business work s).1 ≡ s
unfolding on_business
on_business_reads work s reads = ap (λ b. record s { business = b }) reads

-- An operation that reads before it runs: checks, then an idempotent run, whose body it answers.
module _ {S B A : Type 0} (pending_body : B) (to_json : B → B) (P : S → Type 0) (check : Tx S A)
    (work : A → Tx S B) (key : Option ℕ) (company endpoint hash now status : ℕ) where
  abbrev pub checked_run : Tx (Store S B) B
  checked_run = on_business check >>= λ a.
      run_with_idempotency pending_body to_json key company endpoint hash now status (work a)
      >>= λ r. pure r.1

  then_pure :
      (m : Tx (Store S B) (ℕ × B)) (s : Store S B)
      → P (m s).1.business
      → P ((m >>= λ r. pure r.1) s).1.business
  then_pure m s h = elim (run-cases m s) [
    | inl (r, t, e) ↦
        subst (λ p. P p.1.business) (sym (bind_ok m (λ q. pure q.1) s t r e))
          (subst (λ p. P p.1.business) e h)
    | inr (x, t, e) ↦
        subst (λ p. P p.1.business) (sym (bind_err m (λ q. pure q.1) s t x e))
          (subst (λ p. P p.1.business) e h)
  ]

  pub checked_run_keeps :
      (s : Store S B)
      → (check s.business).1 ≡ s.business
      → ((a : A) (b : B) (t : S)
          → check s.business ≡ (ok a, s.business)
          → work a s.business ≡ (ok b, t)
          → P t)
      → P s.business
      → P (checked_run s).1.business
  checked_run_keeps s reads good h =
      let still = on_business_reads check s reads in
      let run = λ (a : A).
        run_with_idempotency pending_body to_json key company endpoint hash now status (work a) in
      let rest = λ (a : A). run a >>= λ r. pure r.1 in
      elim (run-cases (on_business check) s) [
        | inl (a, u, e) ↦
            let same : u ≡ s = sym (ap (λ p. p.1) e) ∙ still in
            let checked : on_business check s ≡ (ok a, s) =
              subst (λ v. on_business check s ≡ (ok a, v)) same e in
            let read = on_business_ok check s s a checked in
            let kept =
              run_keeps pending_body to_json P (work a) key company endpoint hash now status s
                (λ b t ran. good a b t read ran) h in
            subst (λ p. P p.1.business) (sym (bind_ok (on_business check) rest s s a checked))
              (then_pure (run a) s kept)
        | inr (x, u, e) ↦
            subst (λ p. P p.1.business) (sym (bind_err (on_business check) rest s u x e))
              (subst (λ t. P t.business) (sym still ∙ ap (λ p. p.1) e) h)
      ]
