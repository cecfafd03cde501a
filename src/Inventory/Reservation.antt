-- ===== src/Inventory/Reservation.antt =====
-- `ReservationService` (backend/src/modules/inventory/services/reservation.service.ts).
pub mod Outcome
pub mod Invariant
pub mod RoundTrip
use stock_flow.Prelude.{ℕ, ⊤, Bool, false, not, ◌||◌, none, List, [], ◌∷◌, ◌==◌, length}
use stock_flow.Prelude.Int.{ℤ, pos, ◌+ℤ◌, ◌-ℤ◌, ltb_ℤ, min_ℤ, max_ℤ}
use stock_flow.Tx.{Tx, pure, throw_if, or_throw, transaction, ◌>>=◌, ◌>>◌, not_found, bad_request}
use stock_flow.Inventory.Tables.{
  Product, Stock, reservation, unreservation, reserve, release, Inventory,
}
use stock_flow.Inventory.Repository.{
  find_warehouse_by_id, find_products_by_id, find_stock_by_product_and_warehouse, update_stock,
  create_stock_movement, audit_log,
}

-- `ReserveStockDto` and `ReleaseReservationDto`; the validation pipe admits quantities from 1.
pub record ReservationDto : Type 0 where
  pub product : ℕ
  pub warehouse : ℕ
  pub quantity : ℕ

pub record Receipt : Type 0 where
  pub id : ℕ
  pub quantity : ℤ
  pub reserved_quantity : ℤ
  pub available_quantity : ℤ

abbrev pub is_inactive : {D : Type 0} → List (Product D) → Bool
is_inactive [] = false
is_inactive (p ∷ _) = not p.is_active

-- `stock.quantity - stock.reservedQuantity`
abbrev pub available : Stock → ℤ
available r = r.quantity -ℤ r.reserved_quantity

abbrev pub set_reserved : ℤ → ℤ → Stock → Stock
set_reserved reserved available r = record r {
  reserved_quantity = reserved;
  available_quantity = available;
}

module _ {D : Type 0} where
  unfoldable pub assert_references_belong_to_company : ℕ → ℕ → ℕ → Tx (Inventory D) ⊤
  unfolding find_warehouse_by_id find_products_by_id
  assert_references_belong_to_company warehouse product company = do
    found ← find_warehouse_by_id warehouse company
    w ← or_throw found not_found
    throw_if (not w.is_active) not_found
    products ← find_products_by_id product company
    throw_if (not (length products == 1) || is_inactive products) not_found

  -- The body of the transaction in `reserve`.
  pub reserve_work : ReservationDto → ℕ → ℕ → Tx (Inventory D) Receipt
  unfolding find_stock_by_product_and_warehouse create_stock_movement audit_log
  reserve_work dto company user = do
    assert_references_belong_to_company dto.warehouse dto.product company
    found ← find_stock_by_product_and_warehouse dto.product dto.warehouse company
    stock ← or_throw found not_found
    throw_if (ltb_ℤ (available stock) (pos dto.quantity)) bad_request
    let reserved = stock.reserved_quantity +ℤ pos dto.quantity
    let left = stock.quantity -ℤ reserved
    update_stock stock.id (set_reserved reserved (max_ℤ (pos 0) left)) company stock.row_version
    movement ←
        create_stock_movement company dto.product dto.warehouse reservation (pos dto.quantity)
          stock.reserved_quantity reserved none
    audit_log (record {
      company = company;
      user = user;
      entity_id = stock.id;
      action = reserve;
      before = stock.reserved_quantity;
      after = reserved;
    })
    pure (record {
      id = movement.id;
      quantity = pos dto.quantity;
      reserved_quantity = reserved;
      available_quantity = left;
    })

  -- `reserve`
  unfoldable pub reserve_stock : ReservationDto → ℕ → ℕ → Tx (Inventory D) Receipt
  unfolding reserve_work transaction
  reserve_stock dto company user = transaction (reserve_work dto company user)

  -- The body of the transaction in `release`.
  pub release_work : ReservationDto → ℕ → ℕ → Tx (Inventory D) Receipt
  unfolding find_stock_by_product_and_warehouse create_stock_movement audit_log
  release_work dto company user = do
    assert_references_belong_to_company dto.warehouse dto.product company
    found ← find_stock_by_product_and_warehouse dto.product dto.warehouse company
    stock ← or_throw found not_found
    let released = min_ℤ (pos dto.quantity) stock.reserved_quantity
    let reserved = stock.reserved_quantity -ℤ released
    let left = stock.quantity -ℤ reserved
    update_stock stock.id (set_reserved reserved left) company stock.row_version
    movement ←
        create_stock_movement company dto.product dto.warehouse unreservation (pos 0 -ℤ released)
          stock.reserved_quantity reserved none
    audit_log (record {
      company = company;
      user = user;
      entity_id = stock.id;
      action = release;
      before = stock.reserved_quantity;
      after = reserved;
    })
    pure (record {
      id = movement.id;
      quantity = released;
      reserved_quantity = reserved;
      available_quantity = left;
    })

  -- `release`
  unfoldable pub release_reservation : ReservationDto → ℕ → ℕ → Tx (Inventory D) Receipt
  unfolding release_work transaction
  release_reservation dto company user = transaction (release_work dto company user)
