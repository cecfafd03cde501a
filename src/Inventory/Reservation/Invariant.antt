-- ===== src/Inventory/Reservation/Invariant.antt =====
-- Reservations against the stock invariant: no row promises more than it holds.
use stock_flow.Prelude.{
  ℕ, ◌≡◌, refl, inl, inr, true, false, some, Option-cases, Bool-cases, List, arith, All, IsKeyed,
  find_first, find_first-All, update_many-All, update_many-IsKeyed,
}
use stock_flow.Prelude.Int.{pos, ◌+ℤ◌, ◌-ℤ◌, ◌≤ℤ◌, ltb_ℤ}
use stock_flow.Inventory.Tables.{Stock, Inventory}
use stock_flow.Inventory.Repository.{is_stock_of, is_version}
use stock_flow.Inventory.Reservation.{ReservationDto, available, reserve_stock, release_reservation}
use stock_flow.Inventory.Reservation.Outcome.{
  assert_references-cases, reserved_row, released_row, rewritten, reserve_short, reserve_done,
  release_done, refused, missing_row,
}

-- What is reserved is on the shelf, and the stored available quantity is the rest.
abbrev pub IsAvailable : Stock → Type 0
IsAvailable r =
    (pos 0 ≤ℤ r.reserved_quantity)
    × (r.reserved_quantity ≤ℤ r.quantity)
    × (r.available_quantity ≡ r.quantity -ℤ r.reserved_quantity)

abbrev pub stock_id : Stock → ℕ
stock_id r = r.id

pub record IsSound (stocks : List Stock) : Type 0 where
  pub keyed : IsKeyed stock_id stocks
  pub rows : All IsAvailable stocks

is_version-id :
    (id company version : ℕ) (y : Stock) → is_version id company version y ≡ true → stock_id y ≡ id
is_version-id id company version y e = ground arith

reserved_row-IsAvailable :
    (dto : ReservationDto) (r : Stock)
    → IsAvailable r
    → ltb_ℤ (available r) (pos dto.quantity) ≡ false
    → IsAvailable (reserved_row dto r r)
unfolding ◌+ℤ◌ ◌-ℤ◌
reserved_row-IsAvailable dto r h e = ground arith

released_row-IsAvailable :
    (dto : ReservationDto) (r : Stock) → IsAvailable r → IsAvailable (released_row dto r r)
unfolding ◌+ℤ◌ ◌-ℤ◌
released_row-IsAvailable dto r h = ground arith

module _ (dto : ReservationDto) (company : ℕ) (r : Stock) (write : Stock → Stock)
    (rows : List Stock) (keeps : (y : Stock) → stock_id (write y) ≡ stock_id y)
    (found : find_first (is_stock_of dto.product dto.warehouse company) rows ≡ some r) where
  rewritten-IsSound :
      IsAvailable (write r) → IsSound rows → IsSound (rewritten company write r rows)
  rewritten-IsSound new h = record {
    keyed =
        update_many-IsKeyed stock_id IsAvailable (is_version r.id company r.row_version) write rows
          keeps h.keyed;
    rows =
        update_many-All stock_id IsAvailable (is_version r.id company r.row_version) write
          (is_stock_of dto.product dto.warehouse company) rows r found
          (is_version-id r.id company r.row_version) h.keyed new h.rows;
  }

module _ {D : Type 0} (dto : ReservationDto) (company user : ℕ) (s : Inventory D) where
  -- No call of `reserve`, whatever its outcome, lets a stock row promise more than it holds: if
  -- before the call row ids are distinct and each row has 0 ≤ reserved ≤ quantity and
  -- available = quantity - reserved, the same holds after it.
  pub reserve_stock-IsSound : IsSound s.stocks → IsSound (reserve_stock dto company user s).1.stocks
  reserve_stock-IsSound h = elim (assert_references-cases dto.warehouse dto.product company s) [
    | inr no_refs ↦ rw (refused dto company user s no_refs).0 h
    | inl refs ↦
        elim (Option-cases (find_first (is_stock_of dto.product dto.warehouse company) s.stocks)) [
          | inl lost ↦ rw (missing_row dto company user s refs lost).0 h
          | inr (r, found) ↦ elim (Bool-cases (ltb_ℤ (available r) (pos dto.quantity))) [
            | inl short ↦ rw (reserve_short dto company user s r refs found short) h
            | inr enough ↦ rw (reserve_done dto company user s r refs found enough).1 (
                rewritten-IsSound dto company r (reserved_row dto r) s.stocks (λ y. refl) found
                  (reserved_row-IsAvailable dto r
                    (find_first-All IsAvailable _ s.stocks r h.rows found) enough)
                  h)
          ]
        ]
  ]

  -- The same of `release`, which gives back at most what is reserved.
  pub release_reservation-IsSound :
      IsSound s.stocks → IsSound (release_reservation dto company user s).1.stocks
  release_reservation-IsSound h =
      elim (assert_references-cases dto.warehouse dto.product company s) [
        | inr no_refs ↦ rw (refused dto company user s no_refs).1 h
        | inl refs ↦
            elim (Option-cases
              (find_first (is_stock_of dto.product dto.warehouse company) s.stocks)) [
                | inl lost ↦ rw (missing_row dto company user s refs lost).1 h
                | inr (r, found) ↦ rw (release_done dto company user s r refs found).1 (
                    rewritten-IsSound dto company r (released_row dto r) s.stocks (λ y. refl) found
                      (released_row-IsAvailable dto r
                        (find_first-All IsAvailable _ s.stocks r h.rows found))
                      h)
              ]
      ]
