-- ===== src/Prelude/Counts.antt =====
-- What queries find, and how many rows they count, in a table with rows more or an update.
use stock_flow.Prelude.Tests.{Bool-cases, if◌then◌else◌}
use Prim.Native.Nat.{◌≤◌, ◌+◌}
use stock_flow.Prelude.Lists.{update_many, find_first, count_where}
use mathlib.Core.Path.{subst, ◌≡◌, refl, sym}
use mathlib.Core.Logic.{inl, inr}
use mathlib.Core.Bool.{Bool, true}
use mathlib.Core.Option.{none, some, some-injective}
use mathlib.Core.List.{List, [], ◌∷◌, ◌++◌}
use native.Mathlib.Omega.{arith}

module _ {A : Type 0} where
  pub find_first-append_found :
      (q : A → Bool) (xs ys : List A) (x : A)
      → find_first q xs ≡ some x
      → find_first q (xs ++ ys) ≡ some x
  find_first-append_found q [] ys x e = cc
  find_first-append_found q (y ∷ xs) ys x e = elim (Bool-cases (q y)) [
    | inl t ↦ rw t (rw t at e)
    | inr n ↦ rw n (find_first-append_found q xs ys x (rw n at e))
  ]

  -- An update that keeps the queried columns, and a property, finds a row with the property again.
  pub find_first-update_again :
      (P : A → Type 0) (p q : A → Bool) (f : A → A) (xs : List A) (x : A)
      → ((y : A) → q (f y) ≡ q y)
      → ((y : A) → P y → P (f y))
      → find_first q xs ≡ some x
      → P x
      → (z : A) × (find_first q (update_many p f xs) ≡ some z) × P z
  find_first-update_again P p q f [] x keep kept e h = absurd (cc)
  find_first-update_again P p q f (y ∷ xs) x keep kept e h =
      let later = find_first-update_again P p q f xs x keep kept in
      elim (Bool-cases (q y)) [
        | inl t ↦
            let same : y ≡ x = some-injective _ _ (rw t at e) in
            let here : P y = subst P (sym same) h in
            elim (Bool-cases (p y)) [
              | inl m ↦ (f y, rw (m, keep y, t) refl, kept y here)
              | inr m ↦ (y, rw (m, t) refl, here)
            ]
        | inr n ↦
            let (z, found, held) = later (rw n at e) h in
            elim (Bool-cases (p y)) [
              | inl m ↦ (z, rw (m, keep y, n) found, held)
              | inr m ↦ (z, rw (m, n) found, held)
            ]
      ]

  pub count_where-none :
      (q : A → Bool) (xs : List A) → find_first q xs ≡ none → count_where q xs ≡ 0
  count_where-none q [] e = refl
  count_where-none q (y ∷ xs) e = ground (arith, count_where-none q xs)

  pub count_where-append_one :
      (q : A → Bool) (xs : List A) (x : A)
      → count_where q (xs ++ (x ∷ [])) ≡ count_where q xs + (if q x then 1 else 0)
  count_where-append_one q [] x = elim (Bool-cases (q x)) [ inl t ↦ rw t refl | inr n ↦ rw n refl ]
  count_where-append_one q (y ∷ xs) x =
      let rest = count_where-append_one q xs x in
      elim (Bool-cases (q y)) [ inl t ↦ rw (t, rest) (omega arith) | inr n ↦ rw (n, rest) refl ]

  -- An update after which a row meets the condition only if it did before counts no more rows.
  pub count_where-update_le :
      (p q : A → Bool) (f : A → A) (xs : List A)
      → ((y : A) → q (f y) ≡ true → q y ≡ true)
      → count_where q (update_many p f xs) ≤ count_where q xs
  count_where-update_le p q f [] only = omega arith
  count_where-update_le p q f (y ∷ xs) only =
      let rest = count_where-update_le p q f xs only in
      elim (Bool-cases (p y)) [
        | inl t ↦ elim (Bool-cases (q (f y))) [
          | inl m ↦ rw (t, m, only y m) (omega arith)
          | inr n ↦ elim (Bool-cases (q y)) [
            | inl o ↦ rw (t, n, o) (omega arith)
            | inr o ↦ rw (t, n, o) rest
          ]
        ]
        | inr n ↦ elim (Bool-cases (q y)) [
          | inl o ↦ rw (n, o) (omega arith)
          | inr o ↦ rw (n, o) rest
        ]
      ]

  pub find_first-append_one :
      (p : A → Bool) (xs : List A) (x : A)
      → find_first p xs ≡ none
      → p x ≡ true
      → find_first p (xs ++ (x ∷ [])) ≡ some x
  find_first-append_one p [] x e h = rw h refl
  find_first-append_one p (y ∷ xs) x e h = ground (arith, find_first-append_one p xs x)
