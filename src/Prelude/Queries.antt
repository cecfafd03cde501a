-- ===== src/Prelude/Queries.antt =====
-- What a query finds after an insert or an update.
use stock_flow.Prelude.Tests.{Bool-cases}
use stock_flow.Prelude.Rows.{IsKeyed}
use Prim.Native.Nat.{ℕ}
use stock_flow.Prelude.Lists.{All, find_first-All, find_first, update_many}
use mathlib.Core.Path.{ap, ◌≡◌, ◌∙◌, refl, sym}
use mathlib.Core.Logic.{◌≢◌, ◌⊎◌, inl, inr}
use mathlib.Core.Bool.{Bool, true, false}
use mathlib.Core.Option.{none, some, some-injective}
use mathlib.Core.List.{List, [], ◌∷◌, ◌++◌}

module _ {A : Type 0} where
  -- What a query finds in a table with one row more.
  pub find_first-append_inv :
      (q : A → Bool) (xs : List A) (x y : A)
      → find_first q (xs ++ (x ∷ [])) ≡ some y
      → (find_first q xs ≡ some y) ⊎ ((q x ≡ true) × (x ≡ y))
  find_first-append_inv q [] x y e = elim (Bool-cases (q x)) [
    | inl t ↦ inr (t, some-injective _ _ (rw t at e))
    | inr n ↦ let nothing = rw n at e in absurd (cc)
  ]
  find_first-append_inv q (z ∷ xs) x y e = elim (Bool-cases (q z)) [
    | inl t ↦ inl (rw t (rw t at e))
    | inr n ↦ rw n (find_first-append_inv q xs x y (rw n at e))
  ]

  -- A query that an update does not touch finds what it found before.
  pub find_first-update_other :
      (p q : A → Bool) (f : A → A) (xs : List A)
      → ((y : A) → p y ≡ true → (q y ≡ false) × (q (f y) ≡ false))
      → find_first q (update_many p f xs) ≡ find_first q xs
  find_first-update_other p q f [] other = refl
  find_first-update_other p q f (y ∷ xs) other =
      let rest = find_first-update_other p q f xs other in
      elim (Bool-cases (p y)) [
        | inl t ↦ let (old, new) = other y t in rw (t, old, new) rest
        | inr n ↦ rw (n, rest) refl
      ]

  -- An update that keeps the queried columns and another one keeps that one of what is found.
  pub find_first-update_kept :
      {B : Type 0} (p q : A → Bool) (f : A → A) (g : A → B) (xs : List A) (z : A)
      → ((y : A) → q (f y) ≡ q y)
      → ((y : A) → g (f y) ≡ g y)
      → find_first q (update_many p f xs) ≡ some z
      → (y : A) × (find_first q xs ≡ some y) × (g z ≡ g y)
  find_first-update_kept p q f g [] z keep same e = absurd (cc)
  find_first-update_kept p q f g (y ∷ xs) z keep same e =
      let later = find_first-update_kept p q f g xs z keep same in
      elim (Bool-cases (q y)) [
        | inl t ↦ elim (Bool-cases (p y)) [
          | inl m ↦
              let found : f y ≡ z = some-injective _ _ (rw (m, keep y, t) at e) in
              (y, rw t refl, ap g (sym found) ∙ same y)
          | inr m ↦
              let found : y ≡ z = some-injective _ _ (rw (m, t) at e) in
              (y, rw t refl, ap g (sym found))
        ]
        | inr n ↦ elim (Bool-cases (p y)) [
          | inl m ↦ let (w, found, kept) = later (rw (m, keep y, n) at e) in (w, rw n found, kept)
          | inr m ↦ let (w, found, kept) = later (rw (m, n) at e) in (w, rw n found, kept)
        ]
      ]

  pub All-map : (P Q : A → Type 0) (xs : List A) → ((x : A) → P x → Q x) → All P xs → All Q xs
  All-map P Q [] f h = tt
  All-map P Q (x ∷ xs) f (h, hs) = (f x h, All-map P Q xs f hs)

  -- An update that keeps a property keeps it of all rows.
  pub update_many-All_kept :
      (P : A → Type 0) (p : A → Bool) (f : A → A) (xs : List A)
      → ((x : A) → P x → P (f x))
      → All P xs
      → All P (update_many p f xs)
  update_many-All_kept P p f [] keep h = tt
  update_many-All_kept P p f (x ∷ xs) keep (h, hs) =
      let rest = update_many-All_kept P p f xs keep hs in
      elim (Bool-cases (p x)) [ inl t ↦ rw t (keep x h, rest) | inr n ↦ rw n (h, rest) ]

  -- Rows with one key that two queries find in a table with distinct keys are one row.
  pub find_first_unique :
      (key : A → ℕ) (q r : A → Bool) (xs : List A) (x y : A)
      → IsKeyed key xs
      → find_first q xs ≡ some x
      → find_first r xs ≡ some y
      → key x ≡ key y
      → x ≡ y
  find_first_unique key q r [] x y k e e' same = absurd (cc)
  find_first_unique key q r (z ∷ xs) x y (kz, ks) e e' same = elim (Bool-cases (q z)) [
    | inl t ↦
        let here : z ≡ x = some-injective _ _ (rw t at e) in
        elim (Bool-cases (r z)) [
          | inl t' ↦ sym here ∙ some-injective _ _ (rw t' at e')
          | inr n' ↦
              let later = find_first-All (λ w. key w ≢ key z) r xs y kz (rw n' at e') in
              absurd (later (sym same ∙ ap key (sym here)))
        ]
    | inr n ↦
        let found : find_first q xs ≡ some x = rw n at e in
        elim (Bool-cases (r z)) [
          | inl t' ↦
              let here : z ≡ y = some-injective _ _ (rw t' at e') in
              let later = find_first-All (λ w. key w ≢ key z) q xs x kz found in
              absurd (later (same ∙ ap key (sym here)))
          | inr n' ↦ find_first_unique key q r xs x y ks found (rw n' at e') same
        ]
  ]

  -- Rows that no longer meet the condition after an update are not found.
  pub find_first-update_none :
      (q : A → Bool) (f : A → A) (xs : List A)
      → ((y : A) → q y ≡ true → q (f y) ≡ false)
      → find_first q (update_many q f xs) ≡ none
  find_first-update_none q f [] gone = refl
  find_first-update_none q f (y ∷ xs) gone =
      let rest = find_first-update_none q f xs gone in
      elim (Bool-cases (q y)) [ inl t ↦ rw (t, gone y t) rest | inr n ↦ rw (n, n) rest ]
