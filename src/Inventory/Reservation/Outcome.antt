-- ===== src/Inventory/Reservation/Outcome.antt =====
-- What one call of `reserve` or `release` does, once the references are checked and the row is
-- read.
use stock_flow.Prelude.{
  find_first_sound, find_first-update_many, none, ℕ, ◌≡◌, ◌⊎◌, true, false, some, List, arith,
  find_first, update_many,
}
use stock_flow.Prelude.Int.{pos, ◌+ℤ◌, ◌-ℤ◌, ltb_ℤ, min_ℤ, max_ℤ}
use stock_flow.Tx.{ok, err, bad_request, not_found}
use stock_flow.Inventory.Tables.{Stock, reservation, unreservation, Inventory}
use stock_flow.Inventory.Repository.{is_stock_of, is_version}
use stock_flow.Inventory.Repository.Locking.{
  is_version_self, bumped, update_stock_found, no_operation_collides,
}
use stock_flow.Inventory.Reservation.{
  ReservationDto, available, set_reserved, assert_references_belong_to_company, reserve_stock,
  release_reservation,
}

module _ {D : Type 0} where
  -- The check of the references reads only, and its one failure is a 404.
  pub assert_references-cases :
      (warehouse product company : ℕ) (s : Inventory D)
      → (assert_references_belong_to_company warehouse product company s ≡ (ok tt, s))
        ⊎ (assert_references_belong_to_company warehouse product company s ≡ (err not_found, s))
  unfolding assert_references_belong_to_company
  assert_references-cases warehouse product company s = ground arith

-- The write of a reservation made at the row r.
abbrev pub reserved_row : ReservationDto → Stock → Stock → Stock
reserved_row dto r =
    let reserved = r.reserved_quantity +ℤ pos dto.quantity in
    bumped (set_reserved reserved (max_ℤ (pos 0) (r.quantity -ℤ reserved)))

-- The write of a release made at the row r.
abbrev pub released_row : ReservationDto → Stock → Stock → Stock
released_row dto r =
    let reserved = r.reserved_quantity -ℤ min_ℤ (pos dto.quantity) r.reserved_quantity in
    bumped (set_reserved reserved (r.quantity -ℤ reserved))

-- The stock rows after the write at the row that was read.
abbrev pub rewritten : ℕ → (Stock → Stock) → Stock → List Stock → List Stock
rewritten company write r = update_many (is_version r.id company r.row_version) write

-- A rewritten row is found where the row was found.
pub find_first-rewritten :
    (product warehouse company : ℕ) (write : Stock → Stock) (r : Stock) (rows : List Stock)
    → ((y : Stock)
        → is_stock_of product warehouse company (write y) ≡ is_stock_of product warehouse company y)
    → find_first (is_stock_of product warehouse company) rows ≡ some r
    → find_first (is_stock_of product warehouse company) (rewritten company write r rows)
      ≡ some (write r)
find_first-rewritten product warehouse company write r rows keeps found =
    find_first-update_many (is_version r.id company r.row_version)
      (is_stock_of product warehouse company) write rows r found
      (is_version_self product warehouse company r (find_first_sound _ rows r found)) keeps

module _ {D : Type 0} (dto : ReservationDto) (company user : ℕ) (s : Inventory D) (r : Stock)
    (refs : assert_references_belong_to_company dto.warehouse dto.product company s ≡ (ok tt, s))
    (found : find_first (is_stock_of dto.product dto.warehouse company) s.stocks ≡ some r) where
  -- Less is available than wanted: a 400, and nothing is written.
  pub reserve_short :
      ltb_ℤ (available r) (pos dto.quantity) ≡ true
      → reserve_stock dto company user s ≡ (err bad_request, s)
  unfolding reserve_stock
  reserve_short short = ground arith

  -- Enough is available: the row is rewritten, and the new figures are returned.
  pub reserve_done :
      ltb_ℤ (available r) (pos dto.quantity) ≡ false
      → let reserved = r.reserved_quantity +ℤ pos dto.quantity in
        (reserve_stock dto company user s ≡ (
          ok (record {
            id = s.next_id;
            quantity = pos dto.quantity;
            reserved_quantity = reserved;
            available_quantity = r.quantity -ℤ reserved;
          }),
          (reserve_stock dto company user s).1,
        ))
        × ((reserve_stock dto company user s).1.stocks
            ≡ rewritten company (reserved_row dto r) r s.stocks)
        × ((reserve_stock dto company user s).1.warehouses ≡ s.warehouses)
        × ((reserve_stock dto company user s).1.products ≡ s.products)
  unfolding reserve_stock
  reserve_done enough =
      let reserved = r.reserved_quantity +ℤ pos dto.quantity in
      ground (
        arith,
        update_stock_found dto.product dto.warehouse company
            (set_reserved reserved (max_ℤ (pos 0) (r.quantity -ℤ reserved))) s r found,
        no_operation_collides company reservation s.movements,
      )

  -- A release always succeeds, and gives back at most what is reserved.
  pub release_done :
      let released = min_ℤ (pos dto.quantity) r.reserved_quantity in
      let reserved = r.reserved_quantity -ℤ released in
      (release_reservation dto company user s ≡ (
        ok (record {
          id = s.next_id;
          quantity = released;
          reserved_quantity = reserved;
          available_quantity = r.quantity -ℤ reserved;
        }),
        (release_reservation dto company user s).1,
      ))
      × ((release_reservation dto company user s).1.stocks
          ≡ rewritten company (released_row dto r) r s.stocks)
  unfolding release_reservation
  release_done =
      let reserved = r.reserved_quantity -ℤ min_ℤ (pos dto.quantity) r.reserved_quantity in
      ground (
        arith,
        update_stock_found dto.product dto.warehouse company
            (set_reserved reserved (r.quantity -ℤ reserved)) s r found,
        no_operation_collides company unreservation s.movements,
      )

module _ {D : Type 0} (dto : ReservationDto) (company user : ℕ) (s : Inventory D) where
  -- The references are refused, or the row is missing: a 404, and nothing is written.
  pub refused :
      assert_references_belong_to_company dto.warehouse dto.product company s ≡ (err not_found, s)
      → (reserve_stock dto company user s ≡ (err not_found, s))
        × (release_reservation dto company user s ≡ (err not_found, s))
  unfolding reserve_stock release_reservation
  refused refs = ground arith

  pub missing_row :
      assert_references_belong_to_company dto.warehouse dto.product company s ≡ (ok tt, s)
      → find_first (is_stock_of dto.product dto.warehouse company) s.stocks ≡ none
      → (reserve_stock dto company user s ≡ (err not_found, s))
        × (release_reservation dto company user s ≡ (err not_found, s))
  unfolding reserve_stock release_reservation
  missing_row refs lost = ground arith
