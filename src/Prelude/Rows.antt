-- ===== src/Prelude/Rows.antt =====
-- Tables whose rows have distinct keys: what an update of the row that was read does to the others.
use stock_flow.Prelude.Tests.{Bool-cases}
use stock_flow.Prelude.Lists.{All, find_first, update_many, count_where, find_first-All}
use Prim.Native.Nat.{ℕ, ◌<◌}
use mathlib.Core.Path.{ap, ◌≡◌, ◌∙◌, refl, subst, sym}
use mathlib.Core.Logic.{◌≢◌, inl, inr}
use mathlib.Core.Bool.{Bool, true, false, false≢true}
use mathlib.Core.Option.{some, some-injective}
use mathlib.Core.List.{List, [], ◌∷◌, ◌++◌}
use native.Mathlib.Omega.{arith}

module _ {A : Type 0} (key : A → ℕ) where
  -- No two rows have one key, as a primary key ensures.
  abbrev pub IsKeyed : List A → Type 0
  IsKeyed [] = Unit
  IsKeyed (x ∷ xs) = All (λ y. key y ≢ key x) xs × IsKeyed xs

module _ {A : Type 0} where
  All-middle : (P : A → Type 0) (pre xs : List A) (x : A) → All P (pre ++ x ∷ xs) → P x
  All-middle P [] xs x (h, _) = h
  All-middle P (y ∷ pre) xs x (_, hs) = All-middle P pre xs x hs

  -- A table around the row that a query found, and a query that looks past a row.
  pub find_first_split :
      (q : A → Bool) (xs : List A) (x : A)
      → find_first q xs ≡ some x
      → (pre : List A) × (post : List A) × (xs ≡ pre ++ x ∷ post)
  find_first_split q [] x e = cc
  find_first_split q (y ∷ xs) x e = elim (Bool-cases (q y)) [
    | inl t ↦ let same : y ≡ x = some-injective _ _ (rw t at e) in ([], xs, ap (λ z. z ∷ xs) same)
    | inr n ↦
        let (pre, post, whole) = find_first_split q xs x (rw n at e) in
        (y ∷ pre, post, ap (λ zs. y ∷ zs) whole)
  ]

  pub find_first-past :
      (q : A → Bool) (pre post : List A) (x y : A)
      → q x ≡ false
      → q y ≡ false
      → find_first q (pre ++ x ∷ post) ≡ find_first q (pre ++ y ∷ post)
  find_first-past q [] post x y hx hy = rw (hx, hy) refl
  find_first-past q (z ∷ pre) post x y hx hy = rw (find_first-past q pre post x y hx hy) refl

  -- A row that meets the guard is counted.
  pub count_where_pos :
      (p q : A → Bool) (xs : List A) (x : A)
      → find_first q xs ≡ some x
      → p x ≡ true
      → 0 < count_where p xs
  count_where_pos p q [] x e h = cc
  count_where_pos p q (y ∷ xs) x e h = elim (Bool-cases (q y)) [
    | inl t ↦ let same : y ≡ x = some-injective _ _ (rw t at e) in rw (same, h) (omega arith)
    | inr f ↦
        let later = count_where_pos p q xs x (rw f at e) h in
        elim (Bool-cases (p y)) [ inl t ↦ rw t (omega arith) | inr n ↦ rw n later ]
  ]

  -- The query that found a row finds it again after an update that keeps the queried columns.
  pub find_first-update_many :
      (p q : A → Bool) (f : A → A) (xs : List A) (x : A)
      → find_first q xs ≡ some x
      → p x ≡ true
      → ((y : A) → q (f y) ≡ q y)
      → find_first q (update_many p f xs) ≡ some (f x)
  find_first-update_many p q f [] x e h keep = cc
  find_first-update_many p q f (y ∷ xs) x e h keep = elim (Bool-cases (q y)) [
    | inl t ↦
        let same : y ≡ x = some-injective _ _ (rw t at e) in rw (same, h, keep x, ← same, t) refl
    | inr n ↦
        let later = find_first-update_many p q f xs x (rw n at e) h keep in
        elim (Bool-cases (p y)) [ inl t ↦ rw (t, keep y, n) later | inr m ↦ rw (m, n) later ]
  ]

  module _ (key : A → ℕ) (p : A → Bool) (f : A → A) where
    update_many_none :
        (k : ℕ) (xs : List A)
        → ((y : A) → p y ≡ true → key y ≡ k)
        → All (λ y. key y ≢ k) xs
        → update_many p f xs ≡ xs
    update_many_none k [] only ne = refl
    update_many_none k (y ∷ xs) only (ny, ns) = elim (Bool-cases (p y)) [
      | inl t ↦ absurd (ny (only y t))
      | inr n ↦ rw (n, update_many_none k xs only ns) refl
    ]

    -- An update by key of a row in the middle of a table changes that row alone.
    pub update_many-middle :
        (pre xs : List A) (x : A)
        → ((y : A) → p y ≡ true → key y ≡ key x)
        → p x ≡ true
        → IsKeyed key (pre ++ x ∷ xs)
        → update_many p f (pre ++ x ∷ xs) ≡ pre ++ f x ∷ xs
    update_many-middle [] xs x only h (kx, _) = rw (h, update_many_none (key x) xs only kx) refl
    update_many-middle (y ∷ pre) xs x only h (ky, ks) = elim (Bool-cases (p y)) [
      | inl t ↦ absurd (All-middle (λ z. key z ≢ key y) pre xs x ky (sym (only y t)))
      | inr n ↦ rw (n, update_many-middle pre xs x only h ks) refl
    ]

    pub count_where-middle :
        (pre xs : List A) (x : A) → p x ≡ true → 0 < count_where p (pre ++ x ∷ xs)
    count_where-middle [] xs x h = rw h (omega arith)
    count_where-middle (y ∷ pre) xs x h = ground (arith, count_where-middle pre xs x h)

  module _ (key : A → ℕ) (P : A → Type 0) (p : A → Bool) (f : A → A) where
    -- Rows with another key are not touched.
    update_many-All_other :
        (k : ℕ) (xs : List A)
        → ((y : A) → p y ≡ true → key y ≡ k)
        → All (λ y. key y ≢ k) xs
        → All P xs
        → All P (update_many p f xs)
    update_many-All_other k [] only ne h = tt
    update_many-All_other k (y ∷ xs) only (ny, ns) (hy, hs) = elim (Bool-cases (p y)) [
      | inl t ↦ absurd (ny (only y t))
      | inr n ↦ rw n (hy, update_many-All_other k xs only ns hs)
    ]

    -- Rows with another key are not counted.
    count_where_other :
        (k : ℕ) (xs : List A)
        → ((y : A) → p y ≡ true → key y ≡ k)
        → All (λ y. key y ≢ k) xs
        → count_where p xs ≡ 0
    count_where_other k [] only ne = refl
    count_where_other k (y ∷ xs) only (ny, ns) = elim (Bool-cases (p y)) [
      | inl t ↦ absurd (ny (only y t))
      | inr n ↦ rw n (count_where_other k xs only ns)
    ]

    -- No row is counted if the guard asks for the key of a row that was read, which does not meet it.
    pub count_where_zero :
        (q : A → Bool) (xs : List A) (x : A)
        → find_first q xs ≡ some x
        → ((y : A) → p y ≡ true → (key y ≡ key x) × (q y ≡ true))
        → p x ≡ false
        → IsKeyed key xs
        → count_where p xs ≡ 0
    count_where_zero q [] x e only out k = refl
    count_where_zero q (y ∷ xs) x e only out (ky, ks) = elim (Bool-cases (p y)) [
      | inl t ↦
          let mine : y ≡ x = some-injective _ _ (rw (only y t).1 at e) in
          absurd (false≢true (sym out ∙ rw mine at t))
      | inr n ↦ elim (Bool-cases (q y)) [
        | inl m ↦
            let mine : y ≡ x = some-injective _ _ (rw m at e) in
            rw n (
              count_where_other (key x) xs (λ z h. (only z h).0)
                (subst (λ z. All (λ w. key w ≢ key z) xs) mine ky))
        | inr m ↦ rw n (count_where_zero q xs x (rw m at e) only out ks)
      ]
    ]

    -- An update of the row that was read keeps what holds of every row, if the new row has it.
    pub update_many-All :
        (q : A → Bool) (xs : List A) (x : A)
        → find_first q xs ≡ some x
        → ((y : A) → p y ≡ true → key y ≡ key x)
        → IsKeyed key xs
        → P (f x)
        → All P xs
        → All P (update_many p f xs)
    update_many-All q [] x e only k new h = tt
    update_many-All q (y ∷ xs) x e only (ky, ks) new (hy, hs) = elim (Bool-cases (q y)) [
      | inl t ↦
          let same : y ≡ x = some-injective _ _ (rw t at e) in
          let rest =
            update_many-All_other (key x) xs only (subst (λ z. All (λ w. key w ≢ key z) xs) same ky)
              hs in
          elim (Bool-cases (p y)) [ inl m ↦ rw m (rw (same) new, rest) | inr m ↦ rw m (hy, rest) ]
      | inr n ↦
          let found : find_first q xs ≡ some x = rw n at e in
          let differs = find_first-All (λ z. key z ≢ key y) q xs x ky found in
          let rest = update_many-All q xs x found only ks new hs in
          elim (Bool-cases (p y)) [
            | inl m ↦ absurd (differs (sym (only y m)))
            | inr m ↦ rw m (hy, rest)
          ]
    ]

    -- An update that keeps the keys keeps them distinct.
    update_many-ne :
        (k : ℕ) (xs : List A)
        → ((y : A) → key (f y) ≡ key y)
        → All (λ y. key y ≢ k) xs
        → All (λ y. key y ≢ k) (update_many p f xs)
    update_many-ne k [] keep h = tt
    update_many-ne k (y ∷ xs) keep (hy, hs) =
        let rest = update_many-ne k xs keep hs in
        elim (Bool-cases (p y)) [ inl t ↦ rw t (rw (keep y) hy, rest) | inr n ↦ rw n (hy, rest) ]

    pub update_many-IsKeyed :
        (xs : List A)
        → ((y : A) → key (f y) ≡ key y)
        → IsKeyed key xs
        → IsKeyed key (update_many p f xs)
    update_many-IsKeyed [] keep h = tt
    update_many-IsKeyed (y ∷ xs) keep (hy, hs) =
        let rest = update_many-IsKeyed xs keep hs in
        elim (Bool-cases (p y)) [
          | inl t ↦ rw t (rw (keep y) (update_many-ne (key y) xs keep hy), rest)
          | inr n ↦ rw n (update_many-ne (key y) xs keep hy, rest)
        ]
