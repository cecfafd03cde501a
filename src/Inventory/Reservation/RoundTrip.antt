-- ===== src/Inventory/Reservation/RoundTrip.antt =====
-- A release takes back exactly what a reservation took.
use stock_flow.Prelude.{ℕ, ◌≡◌, refl, false, some, arith, find_first}
use stock_flow.Prelude.Int.{pos, ◌+ℤ◌, ◌-ℤ◌, ◌≤ℤ◌, ltb_ℤ}
use stock_flow.Tx.{ok}
use stock_flow.Inventory.Tables.{Stock, Inventory}
use stock_flow.Inventory.Repository.{is_stock_of}
use stock_flow.Inventory.Reservation.{
  ReservationDto, available, assert_references_belong_to_company, reserve_stock,
  release_reservation,
}
use stock_flow.Inventory.Reservation.Outcome.{
  find_first-rewritten, reserved_row, released_row, reserve_done, release_done,
}
use stock_flow.Inventory.Reservation.Invariant.{IsAvailable}

-- The references depend on the warehouses and the products alone.
assert_references-frame :
    {D : Type 0} (warehouse product company : ℕ) (s t : Inventory D)
    → t.warehouses ≡ s.warehouses
    → t.products ≡ s.products
    → assert_references_belong_to_company warehouse product company s ≡ (ok tt, s)
    → assert_references_belong_to_company warehouse product company t ≡ (ok tt, t)
unfolding assert_references_belong_to_company
assert_references-frame warehouse product company s t ew ep h = ground arith

-- The figures of a row after a reservation and an equal release.
taken_back :
    (dto : ReservationDto) (r : Stock)
    → IsAvailable r
    → let r' = released_row dto (reserved_row dto r r) (reserved_row dto r r) in
      (r'.quantity ≡ r.quantity)
      × (r'.reserved_quantity ≡ r.reserved_quantity)
      × (r'.available_quantity ≡ r.available_quantity)
unfolding ◌+ℤ◌ ◌-ℤ◌
taken_back dto r h = ground arith

module _ {D : Type 0} (dto : ReservationDto) (company user : ℕ) (s : Inventory D) where
  abbrev pub after_reserve : Inventory D
  after_reserve = (reserve_stock dto company user s).1

  abbrev pub after_both : Inventory D
  after_both = (release_reservation dto company user after_reserve).1

  -- When the references are the company's, the row is the one that the queries find and has 0 ≤
  -- reserved ≤ quantity with its available quantity the rest, and enough is available, a release
  -- after an equal reservation leaves a row that is found again, with the quantity, the reserved
  -- and the available quantity of before.
  pub release-reserve :
      (r : Stock)
      → assert_references_belong_to_company dto.warehouse dto.product company s ≡ (ok tt, s)
      → find_first (is_stock_of dto.product dto.warehouse company) s.stocks ≡ some r
      → IsAvailable r
      → pos dto.quantity ≤ℤ available r
      → (r' : Stock) × (find_first (is_stock_of dto.product dto.warehouse company) after_both.stocks
          ≡ some r')
        × (r'.quantity ≡ r.quantity)
        × (r'.reserved_quantity ≡ r.reserved_quantity)
        × (r'.available_quantity ≡ r.available_quantity)
  release-reserve r refs found h fits =
      let enough : ltb_ℤ (available r) (pos dto.quantity) ≡ false = ground arith in
      let (receipt, rows, ws, ps) = reserve_done dto company user s r refs found enough in
      let refs' =
        assert_references-frame dto.warehouse dto.product company s after_reserve ws ps refs in
      let found' : find_first (is_stock_of dto.product dto.warehouse company) after_reserve.stocks
          ≡ some (reserved_row dto r r) =
        rw rows (
          find_first-rewritten dto.product dto.warehouse company (reserved_row dto r) r s.stocks
            (λ y. refl) found) in
      let (_, rows') =
        release_done dto company user after_reserve (reserved_row dto r r) refs' found' in
      let found'' : find_first (is_stock_of dto.product dto.warehouse company) after_both.stocks
          ≡ some (released_row dto (reserved_row dto r r) (reserved_row dto r r)) =
        rw rows' (
          find_first-rewritten dto.product dto.warehouse company
            (released_row dto (reserved_row dto r r)) (reserved_row dto r r) after_reserve.stocks
            (λ y. refl) found') in
      let (q, res, av) = taken_back dto r h in
      (released_row dto (reserved_row dto r r) (reserved_row dto r r), found'', q, res, av)
