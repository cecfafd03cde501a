-- ===== src/Inventory/StockMoves/Totals.antt =====
-- The total quantity of a product over its stock rows, and what one guarded write does to it.
use stock_flow.Inventory.StockMoves.{set_quantity}
use stock_flow.Inventory.Reservation.{available}
use stock_flow.Finance.GlEngine.{post}
use stock_flow.Tx.{ok}
use stock_flow.Inventory.Repository.{update_stock, is_version, is_stock_of}
use stock_flow.Prelude.Int.{◌+ℤ◌, ℤ, pos, int_laws}
use stock_flow.Inventory.Repository.Locking.{update_stock_found, is_version_self, bumped}
use stock_flow.Prelude.{
  update_many-IsKeyed, true, inr, inl, false, Bool-cases, ◌≡◌, ◌∷◌, ◌∙◌, ◌==◌, ◌++◌, ℕ,
  update_many-middle, update_many, some, refl, if◌then◌else◌, find_first_sound, find_first, arith,
  [], List, IsKeyed,
}
use stock_flow.Inventory.Tables.{Stock, Inventory}

abbrev pub sum_by : (Stock → ℤ) → List Stock → ℤ
sum_by g [] = pos 0
sum_by g (r ∷ rs) = g r +ℤ sum_by g rs

-- What a row holds of product k.
abbrev pub quantity_for : ℕ → Stock → ℤ
quantity_for k r = if r.product == k then r.quantity else pos 0

pub sum_by-middle :
    (g : Stock → ℤ) (pre post : List Stock) (r : Stock)
    → sum_by g (pre ++ r ∷ post) ≡ g r +ℤ (sum_by g pre +ℤ sum_by g post)
sum_by-middle g [] post r = omega int_laws
sum_by-middle g (x ∷ pre) post r = rw (sum_by-middle g pre post r) (omega int_laws)

pub sum_by-append_one :
    (g : Stock → ℤ) (rs : List Stock) (r : Stock) → sum_by g (rs ++ (r ∷ [])) ≡ sum_by g rs +ℤ g r
sum_by-append_one g [] r = omega int_laws
sum_by-append_one g (x ∷ rs) r = rw (sum_by-append_one g rs r) (omega int_laws)

-- A row in the middle of the table is written alone.
pub update_stock_middle :
    {D : Type 0} (product warehouse company : ℕ) (change : Stock → Stock) (s : Inventory D)
    (pre post : List Stock) (r : Stock)
    → s.stocks ≡ pre ++ r ∷ post
    → IsKeyed Stock.id s.stocks
    → find_first (is_stock_of product warehouse company) s.stocks ≡ some r
    → update_stock r.id change company r.row_version s
      ≡ (ok tt, record s { stocks = pre ++ bumped change r ∷ post })
update_stock_middle product warehouse company change s pre post r whole keyed found =
    let mine = find_first_sound (is_stock_of product warehouse company) s.stocks r found in
    let own = is_version_self product warehouse company r mine in
    let alone =
      update_many-middle Stock.id (is_version r.id company r.row_version) (bumped change) pre post r
        (λ y h. ground arith) own (rw whole at keyed) in
    let written : update_many (is_version r.id company r.row_version) (bumped change) s.stocks
        ≡ pre ++ bumped change r ∷ post =
      rw whole alone in
    update_stock_found product warehouse company change s r found ∙ rw written refl

-- A write of a quantity that differs by n from the row's changes the total of its product by n.
pub total-middle :
    (k product : ℕ) (n quantity available : ℤ) (pre post : List Stock) (r : Stock)
    → r.product ≡ product
    → quantity ≡ r.quantity +ℤ n
    → sum_by (quantity_for k) (pre ++ bumped (set_quantity quantity available) r ∷ post)
      ≡ sum_by (quantity_for k) (pre ++ r ∷ post) +ℤ (if product == k then n else pos 0)
total-middle k product n quantity available pre post r same moved =
    let before = sum_by-middle (quantity_for k) pre post r in
    let after =
      sum_by-middle (quantity_for k) pre post (bumped (set_quantity quantity available) r) in
    elim (Bool-cases (product == k)) [
      | inl t ↦
          let mine : (r.product == k) ≡ true = ground arith in
          rw (before, after, t, mine, moved) (omega int_laws)
      | inr f ↦
          let other : (r.product == k) ≡ false = ground arith in
          rw (before, after, f, other) (omega int_laws)
    ]

pub bumped-IsKeyed :
    (change : Stock → Stock) (pre post : List Stock) (r : Stock)
    → ((y : Stock) → (change y).id ≡ y.id)
    → IsKeyed Stock.id (pre ++ r ∷ post)
    → IsKeyed Stock.id (pre ++ bumped change r ∷ post)
bumped-IsKeyed change pre post r keeps keyed =
    let p = is_version r.id r.company r.row_version in
    let own : p r ≡ true = ground arith in
    rw (← update_many-middle Stock.id p (bumped change) pre post r (λ y h. ground arith) own keyed)
      (update_many-IsKeyed Stock.id (λ x. Unit) p (bumped change) (pre ++ r ∷ post) keeps keyed)
