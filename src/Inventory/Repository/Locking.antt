-- ===== src/Inventory/Repository/Locking.antt =====
-- The guarded write of a stock row (`updateStock`) when the row was read in the same transaction.
use stock_flow.Prelude.{
  ℕ, suc, List, [], ◌∷◌, none, any_where, ◌≡◌, refl, true, false, some, arith, ◌==◌, find_first,
  update_many, count_where, find_first_sound, count_where_pos,
}
use stock_flow.Tx.{ok}
use stock_flow.Inventory.Tables.{Stock, StockMovement, StockMovementType, Inventory}
use stock_flow.Inventory.Repository.{is_stock_of, is_version, update_stock, same_operation}

abbrev pub bumped : (Stock → Stock) → Stock → Stock
bumped change r = record (change r) { row_version = suc r.row_version }

pub is_version_self :
    (product warehouse company : ℕ) (r : Stock)
    → is_stock_of product warehouse company r ≡ true
    → is_version r.id company r.row_version r ≡ true
is_version_self product warehouse company r e = ground arith

-- The write of a row that was just read succeeds, and changes exactly the rows at its id and
-- version.
pub update_stock_found :
    {D : Type 0} (product warehouse company : ℕ) (change : Stock → Stock) (s : Inventory D)
    (r : Stock)
    → find_first (is_stock_of product warehouse company) s.stocks ≡ some r
    → update_stock r.id change company r.row_version s ≡ (
      ok tt,
      record s {
        stocks = update_many (is_version r.id company r.row_version) (bumped change) s.stocks;
      },
    )
unfolding update_stock
update_stock_found product warehouse company change s r e =
    let mine = find_first_sound (is_stock_of product warehouse company) s.stocks r e in
    let counted =
      count_where_pos (is_version r.id company r.row_version)
        (is_stock_of product warehouse company) s.stocks r e
        (is_version_self product warehouse company r mine) in
    let positive : (count_where (is_version r.id company r.row_version) s.stocks == 0) ≡ false =
      ground arith in
    rw positive refl

-- A movement without an operation identity collides with none.
pub no_operation_collides :
    (company : ℕ) (type : StockMovementType) (ms : List StockMovement)
    → any_where (same_operation company none type) ms ≡ false
no_operation_collides company type [] = refl
no_operation_collides company type (m ∷ ms) = no_operation_collides company type ms
