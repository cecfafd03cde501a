-- ===== src/Tx.antt =====
-- Database transactions: `prisma.$transaction(async (tx) => …)` with NestJS exceptions.
-- A computation reads and writes the tables and returns a result or throws; `transaction` restores
-- the tables when it throws.
use stock_flow.Prelude.{
  true, false, ap, sym, ◌∙◌, ◌⊎◌, ◌≡◌, refl, inr, inl, ⊤, Bool, Option, none, some, if◌then◌else◌,
}

-- The exceptions of @nestjs/common, and Prisma's unique violation P2002. `out_of_fuel` marks a loop
-- of the model that used up its fuel; where it can appear, it is proved that it does not.
pub data Exception : Type 0 where
  bad_request not_found conflict unprocessable_entity unique_violation out_of_fuel : Exception

pub data Result (A : Type 0) : Type 0 where
  ok : A → Result A
  err : Exception → Result A

abbrev pub Tx : Type 0 → Type 0 → Type 0
Tx S A = S → Result A × S

module _ {S : Type 0} {A : Type 0} where
  abbrev pub pure : A → Tx S A
  pure a s = (ok a, s)

  abbrev pub throw : Exception → Tx S A
  throw e s = (err e, s)

  abbrev pub gets : (S → A) → Tx S A
  gets f s = (ok (f s), s)

  abbrev pub or_throw : Option A → Exception → Tx S A
  or_throw none e = throw e
  or_throw (some a) e = pure a

  abbrev pub of_result : Result A → Tx S A
  of_result r s = (r, s)

  -- `prisma.$transaction`: a thrown exception rolls every write back.
  unfoldable pub transaction : Tx S A → Tx S A
  transaction m s = let (r, s') = m s in elim r [ ok a ↦ (ok a, s') | err e ↦ (err e, s) ]

module _ {S : Type 0} where
  abbrev pub throw_if : Bool → Exception → Tx S ⊤
  throw_if b e s = (if b then err e else ok tt, s)

  abbrev pub modify : (S → S) → Tx S ⊤
  modify f s = (ok tt, f s)

infixl 5 ◌>>=◌ ◌>>◌
abbrev pub ◌>>=◌ : {S A B : Type 0} → Tx S A → (A → Tx S B) → Tx S B
◌>>=◌ m f s = let (r, s') = m s in elim r [ ok a ↦ f a s' | err e ↦ (err e, s') ]

abbrev pub ◌>>◌ : {S A B : Type 0} → Tx S A → Tx S B → Tx S B
m >> k = m >>= λ _. k

-- To split on an outcome and keep the equation.
pub Result-cases :
    {A : Type 0} (r : Result A) → ((a : A) × (r ≡ ok a)) ⊎ ((e : Exception) × (r ≡ err e))
Result-cases (ok a) = inl (a, refl)
Result-cases (err e) = inr (e, refl)

-- A computation whose first part is known to succeed.
pub bind_ok :
    {S A B : Type 0} (m : Tx S A) (f : A → Tx S B) (s s' : S) (a : A)
    → m s ≡ (ok a, s')
    → (m >>= f) s ≡ f a s'
bind_ok {S} {A} {B} m f s s' a e = ap resume e
  where
    resume : Result A × S → Result B × S
    resume p = let (r, t) = p in elim r [ ok x ↦ f x t | err x ↦ (err x, t) ]

module _ {S : Type 0} {A : Type 0} where
  -- How a computation ended, with its equation.
  pub run-cases :
      (m : Tx S A) (s : S)
      → ((a : A) × (t : S) × (m s ≡ (ok a, t))) ⊎ ((e : Exception) × (t : S) × (m s ≡ (err e, t)))
  run-cases m s = split (m s) refl
    where
      split :
          (p : Result A × S)
          → m s ≡ p
          → ((a : A) × (t : S) × (m s ≡ (ok a, t)))
            ⊎ ((e : Exception) × (t : S) × (m s ≡ (err e, t)))
      split (ok a, t) q = inl (a, t, q)
      split (err e, t) q = inr (e, t, q)

  -- What is thrown inside a transaction leaves the tables as they were.
  pub transaction_ok :
      (m : Tx S A) (s t : S) (a : A) → m s ≡ (ok a, t) → transaction m s ≡ (ok a, t)
  unfolding transaction
  transaction_ok m s t a e =
      ap (λ (p : Result A × S). let (r, u) = p in elim r [ ok b ↦ (ok b, u) | err y ↦ (err y, s) ])
        e

  pub transaction_err :
      (m : Tx S A) (s t : S) (x : Exception) → m s ≡ (err x, t) → transaction m s ≡ (err x, s)
  unfolding transaction
  transaction_err m s t x e =
      ap (λ (p : Result A × S). let (r, u) = p in elim r [ ok b ↦ (ok b, u) | err y ↦ (err y, s) ])
        e

pub bind_err :
    {S A B : Type 0} (m : Tx S A) (f : A → Tx S B) (s u : S) (x : Exception)
    → m s ≡ (err x, u)
    → (m >>= f) s ≡ (err x, u)
bind_err {S} {A} {B} m f s u x e = ap resume e
  where
    resume : Result A × S → Result B × S
    resume p = let (r, t) = p in elim r [ ok a ↦ f a t | err y ↦ (err y, t) ]

-- The two parts of a computation that succeeds.
pub bind_inv :
    {S A B : Type 0} (m : Tx S A) (f : A → Tx S B) (s t : S) (b : B)
    → (m >>= f) s ≡ (ok b, t)
    → (a : A) × (u : S) × (m s ≡ (ok a, u)) × (f a u ≡ (ok b, t))
bind_inv m f s t b e = elim (run-cases m s) [
  | inl (a, u, q) ↦ (a, u, q, sym (bind_ok m f s u a q) ∙ e)
  | inr (x, u, q) ↦ let stuck = sym (bind_err m f s u x q) ∙ e in absurd (cc)
]

-- A transaction that succeeds is its computation.
pub transaction_inv :
    {S A : Type 0} (m : Tx S A) (s t : S) (a : A) → transaction m s ≡ (ok a, t) → m s ≡ (ok a, t)
transaction_inv m s t a e = elim (run-cases m s) [
  | inl (b, u, q) ↦ q ∙ (sym (transaction_ok m s u b q) ∙ e)
  | inr (x, u, q) ↦ let stuck = sym (transaction_err m s u x q) ∙ e in absurd (cc)
]

pub transaction_failed :
    {S A : Type 0} (m : Tx S A) (s t : S) (x : Exception) → transaction m s ≡ (err x, t) → t ≡ s
transaction_failed m s t x e = elim (run-cases m s) [
  | inl (b, u, q) ↦ let stuck = sym (transaction_ok m s u b q) ∙ e in absurd (cc)
  | inr (y, u, q) ↦ ap (λ p. p.1) (sym e ∙ transaction_err m s u y q)
]

pub throw_if_passed :
    {S : Type 0} (c : Bool) (x : Exception) (s t : S) (y : ⊤)
    → throw_if c x s ≡ (ok y, t)
    → (c ≡ false) × (s ≡ t)
throw_if_passed true x s t y e = absurd (cc)
throw_if_passed false x s t y e = (refl, ap (λ p. p.1) e)

pub or_throw_found :
    {S A : Type 0} (o : Option A) (x : Exception) (s t : S) (a : A)
    → or_throw o x s ≡ (ok a, t)
    → (o ≡ some a) × (s ≡ t)
or_throw_found none x s t a e = absurd (cc)
or_throw_found (some b) x s t a e = (ap some (cc), ap (λ p. p.1) e)
