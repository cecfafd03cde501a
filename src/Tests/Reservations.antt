-- ===== src/Tests/Reservations.antt =====
-- A small inventory, and the reservation theorems applied to it.
use stock_flow.Tx.{bad_request, err, ok}
use stock_flow.Inventory.Reservation.RoundTrip.{release-reserve, after_both}
use stock_flow.Inventory.Repository.{is_stock_of, update_stock}
use stock_flow.Prelude.{refl, [], ◌≡◌, ◌∷◌, some, false, find_first, arith, ℕ, true}
use stock_flow.Inventory.Reservation.Invariant.{IsAvailable, reserve_stock-IsSound, IsSound}
use stock_flow.Prelude.Int.{◌-ℤ◌, pos, ◌+ℤ◌}
use stock_flow.Inventory.Tables.{Stock, Product, Warehouse, Inventory}
use stock_flow.Inventory.Reservation.{
  assert_references_belong_to_company, ReservationDto, reserve_stock,
}

abbrev pub main_warehouse : Warehouse
main_warehouse = record { id = 1; company = 7; is_active = true; is_deleted = false }

abbrev pub side_warehouse : Warehouse
side_warehouse = record { id = 2; company = 7; is_active = true; is_deleted = false }

abbrev pub tea : Product ℕ
tea = record { id = 5; company = 7; cost_price = some 12; is_active = true; is_deleted = false }

abbrev pub tea_stock : Stock
tea_stock = record {
  id = 31;
  company = 7;
  product = 5;
  warehouse = 1;
  quantity = pos 10;
  reserved_quantity = pos 3;
  available_quantity = pos 7;
  row_version = 4;
}

abbrev pub other_stock : Stock
other_stock = record tea_stock { id = 30; product = 6 }

abbrev pub shop : Inventory ℕ
shop = record {
  warehouses = main_warehouse ∷ side_warehouse ∷ [];
  products = tea ∷ [];
  stocks = other_stock ∷ tea_stock ∷ [];
  movements = [];
  layers = [];
  audit = [];
  next_id = 100;
}

abbrev order : ReservationDto
order = record { product = 5; warehouse = 1; quantity = 4 }

-- Two rows of ten units, three of them reserved.
line : IsAvailable tea_stock
unfolding ◌-ℤ◌
line = (omega arith, omega arith, refl)

pub shop-IsSound : IsSound shop.stocks
shop-IsSound = record { keyed = ((omega arith, tt), (tt, tt)); rows = (line, (line, tt)) }

references_hold : assert_references_belong_to_company 1 5 7 shop ≡ (ok tt, shop)
unfolding assert_references_belong_to_company
references_hold = refl

reserve_runs :
    (reserve_stock order 7 9 shop).0
    ≡ ok (record {
      id = 100;
      quantity = pos 4;
      reserved_quantity = pos 7;
      available_quantity = pos 3;
    })
unfolding reserve_stock assert_references_belong_to_company update_stock ◌+ℤ◌ ◌-ℤ◌
reserve_runs = refl

reserve_refuses : reserve_stock (record order { quantity = 8 }) 7 9 shop ≡ (err bad_request, shop)
unfolding reserve_stock assert_references_belong_to_company update_stock ◌+ℤ◌ ◌-ℤ◌
reserve_refuses = refl

reserve_stock-IsSound_example : IsSound (reserve_stock order 7 9 shop).1.stocks
reserve_stock-IsSound_example = reserve_stock-IsSound order 7 9 shop shop-IsSound

release-reserve_example :
    (r' : Stock) × (find_first (is_stock_of 5 1 7) (after_both order 7 9 shop).stocks ≡ some r')
    × (r'.quantity ≡ pos 10)
    × (r'.reserved_quantity ≡ pos 3)
    × (r'.available_quantity ≡ pos 7)
unfolding ◌+ℤ◌ ◌-ℤ◌
release-reserve_example =
    release-reserve order 7 9 shop tea_stock references_hold refl (omega arith, omega arith, refl)
      (omega arith)
