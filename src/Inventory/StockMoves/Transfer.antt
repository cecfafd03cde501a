-- ===== src/Inventory/StockMoves/Transfer.antt =====
-- A transfer moves quantity and makes none.
-- What arrives of product k.
use stock_flow.Finance.GlEngine.{post}
use stock_flow.Inventory.StockMoves.Totals.{
  update_stock_middle, total-middle, sum_by-append_one, sum_by, quantity_for,
}
use stock_flow.Prelude.Int.{◌-ℤ◌, ◌+ℤ◌, ℤ, pos}
use stock_flow.Tx.{unique_violation, err, ok}
use stock_flow.Inventory.Repository.{is_stock_of, create_stock}
use stock_flow.Inventory.StockMoves.{set_quantity, write_destination, quantity_in, TransferStockDto}
use stock_flow.Inventory.Tables.{Stock, Inventory}
use stock_flow.Prelude.{
  ◌∷◌, ◌++◌, suc, [], ◌&&◌, any_where, some, refl, none, find_first_split, find_first_sound, arith,
  ◌≡◌, ◌==◌, ℕ, inr, inl, if◌then◌else◌, find_first, Option-cases, IsKeyed, Bool,
}

abbrev pub arrival : ℕ → TransferStockDto → ℤ
arrival k dto = if dto.product == k then pos dto.quantity else pos 0

abbrev pub is_destination : TransferStockDto → ℕ → Stock → Bool
is_destination dto company = is_stock_of dto.product dto.to_warehouse company

module _ {D : Type 0} (dto : TransferStockDto) (company k : ℕ) (s : Inventory D) where
  abbrev pub is_taken : Bool
  is_taken = any_where (λ t. t.product == dto.product && t.warehouse == dto.to_warehouse) s.stocks

  abbrev pub arrived : Stock
  arrived = record {
    id = s.next_id;
    company = company;
    product = dto.product;
    warehouse = dto.to_warehouse;
    quantity = pos dto.quantity;
    reserved_quantity = pos 0;
    available_quantity = pos dto.quantity;
    row_version = 0;
  }

  create_stock_cases :
      create_stock dto.product dto.to_warehouse company
        (pos dto.quantity)
        (pos 0)
        (pos dto.quantity)
        s
      ≡ (if is_taken then (err unique_violation, s) else (
        ok arrived,
        record s { stocks = s.stocks ++ (arrived ∷ []); next_id = suc s.next_id },
      ))
  unfolding create_stock
  create_stock_cases = refl

  write_none_total :
      (after : ℤ)
      → (write_destination dto company none after s).0 ≡ ok tt
      → sum_by (quantity_for k) (write_destination dto company none after s).1.stocks
        ≡ sum_by (quantity_for k) s.stocks +ℤ arrival k dto
  unfolding write_destination
  write_none_total after e =
      let made : (write_destination dto company none after s).1.stocks
          ≡ s.stocks ++ (arrived ∷ []) =
        ground (arith, create_stock_cases) in
      rw made (sum_by-append_one (quantity_for k) s.stocks arrived)

  write_some_total :
      (r : Stock)
      → IsKeyed Stock.id s.stocks
      → find_first (is_destination dto company) s.stocks ≡ some r
      → sum_by
          (quantity_for k)
          (write_destination dto company (some r) (r.quantity +ℤ pos dto.quantity) s).1.stocks
        ≡ sum_by (quantity_for k) s.stocks +ℤ arrival k dto
  unfolding write_destination
  write_some_total r keyed found =
      let (pre, post, whole) = find_first_split (is_destination dto company) s.stocks r found in
      let mine = find_first_sound (is_destination dto company) s.stocks r found in
      let after = r.quantity +ℤ pos dto.quantity in
      let change = set_quantity after (after -ℤ r.reserved_quantity) in
      let written =
        update_stock_middle dto.product dto.to_warehouse company change s pre post r whole keyed
          found in
      rw (written, whole)
        (total-middle k dto.product (pos dto.quantity) after (after -ℤ r.reserved_quantity) pre post
          r (ground arith) refl)

  -- The write of the destination adds what arrives to the product's total.
  pub write_destination_total :
      IsKeyed Stock.id s.stocks
      → let found = find_first (is_destination dto company) s.stocks in
        let written =
          write_destination dto company found (quantity_in found +ℤ pos dto.quantity) s in
        written.0 ≡ ok tt
        → sum_by (quantity_for k) written.1.stocks
          ≡ sum_by (quantity_for k) s.stocks +ℤ arrival k dto
  write_destination_total keyed e =
      elim (Option-cases (find_first (is_destination dto company) s.stocks)) [
        | inl absent ↦ rw absent (write_none_total _ (rw absent at e))
        | inr (r, found) ↦ rw found (write_some_total r keyed found)
      ]
