-- ===== src/Inventory/StockMoves/Conservation.antt =====
-- A transfer keeps the total quantity of every product.
use stock_flow.Inventory.StockMoves.Totals.{
  total-middle, sum_by, quantity_for, bumped-IsKeyed, update_stock_middle,
}
use stock_flow.Finance.GlEngine.{post}
use stock_flow.Inventory.StockMoves.Transfer.{arrival, write_destination_total, is_destination}
use stock_flow.Inventory.Repository.Locking.{bumped}
use stock_flow.Prelude.Int.{int_laws, ◌-ℤ◌, ◌+ℤ◌, max_ℤ, pos, ℤ}
use stock_flow.Inventory.Repository.{
  is_stock_of, find_warehouse_by_id, find_stock_by_product_and_warehouse, find_product_by_id,
  create_stock_movement,
}
use stock_flow.Tx.{ok, ◌>>◌, pure, ◌>>=◌, Tx, Result-cases, Result}
use stock_flow.Inventory.StockMoves.{
  write_destination, set_quantity, quantity_in, apply_transfer_stock, transferred, publish_event,
  record_legs, or_duplicate, TransferStockDto, InventoryEvent,
}
use stock_flow.Inventory.Tables.{
  StockMovement, Stock, transfer_out, transfer_in, StockMovementType, Inventory,
}
use stock_flow.Prelude.{
  subst, if◌then◌else◌, ap, ◌≢◌, ◌∙◌, none, find_first_split, find_first_sound, find_first-past,
  Option-cases, ◌∷◌, ◌==◌, ◌++◌, some, find_first, false, List, IsKeyed, arith, ◌≡◌, ⊤, ℕ, refl,
  inr, inl, any_where, Option, Bool-cases,
}
use stock_flow.Inventory.Repository.{same_operation}

module _ {D : Type 0} (publish : InventoryEvent D → Inventory D → Result ⊤) where
  movement_stocks :
      (company product warehouse : ℕ) (type : StockMovementType) (n before after : ℤ)
      (operation : Option ℕ) (s : Inventory D)
      → (create_stock_movement company product warehouse type n before after operation s).1.stocks
        ≡ s.stocks
  unfolding create_stock_movement
  movement_stocks company product warehouse type n before after operation s =
      elim (Bool-cases (any_where (same_operation company operation type) s.movements)) [
        | inl taken ↦ rw taken refl
        | inr free ↦ rw free refl
      ]

  or_duplicate_stocks :
      {A : Type 0} (m : Tx (Inventory D) A) (s : Inventory D)
      → (m s).1.stocks ≡ s.stocks
      → (or_duplicate m s).1.stocks ≡ s.stocks
  or_duplicate_stocks m s h = elim (Result-cases (m s).0) [
    | inl (a, good) ↦ ground (arith, good, h)
    | inr (e, bad) ↦ ground (arith, bad, h)
  ]

  bind_stocks :
      {A B : Type 0} (m : Tx (Inventory D) A) (f : A → Tx (Inventory D) B) (s : Inventory D)
      → (m s).1.stocks ≡ s.stocks
      → ((a : A) (t : Inventory D) → (f a t).1.stocks ≡ t.stocks)
      → ((m >>= f) s).1.stocks ≡ s.stocks
  bind_stocks m f s h k = elim (Result-cases (m s).0) [
    | inl (a, good) ↦ ground (arith, good, h, k a (m s).1)
    | inr (e, bad) ↦ ground (arith, bad, h)
  ]

  record_legs_stocks :
      (dto : TransferStockDto) (company : ℕ) (a b c e : ℤ) (s : Inventory D)
      → (record_legs publish dto company a b c e s).1.stocks ≡ s.stocks
  unfolding record_legs
  record_legs_stocks dto company a b c e s =
      let n = pos dto.quantity in
      let leg = λ (warehouse : ℕ) (type : StockMovementType) (before after : ℤ).
        create_stock_movement {D = D} company dto.product warehouse type n before after
          dto.client_operation_id in
      let event =
        publish_event publish
          (transferred company dto.product dto.from_warehouse dto.to_warehouse dto.quantity) in
      bind_stocks {B = StockMovement × StockMovement}
        (or_duplicate (leg dto.from_warehouse transfer_out a b))
        (λ o. or_duplicate (leg dto.to_warehouse transfer_in c e) >>= λ i. event >> pure (o, i)) s
        (or_duplicate_stocks (leg dto.from_warehouse transfer_out a b) s (
          movement_stocks company dto.product dto.from_warehouse transfer_out n a b
            dto.client_operation_id s))
        (λ o t.
          bind_stocks {B = StockMovement × StockMovement}
            (or_duplicate (leg dto.to_warehouse transfer_in c e)) (λ i. event >> pure (o, i)) t
            (or_duplicate_stocks (leg dto.to_warehouse transfer_in c e) t (
              movement_stocks company dto.product dto.to_warehouse transfer_in n c e
                dto.client_operation_id t))
            (λ i u.
              bind_stocks {B = StockMovement × StockMovement} event (λ x. pure (o, i)) u refl
                (λ x v. refl)))

  module _ (dto : TransferStockDto) (company : ℕ) (s : Inventory D)
      (differ : (dto.from_warehouse == dto.to_warehouse) ≡ false)
      (keyed : IsKeyed Stock.id s.stocks) where
    -- The tables after the write of the source row.
    abbrev pub source_change : Stock → Stock → Stock
    source_change src =
        let after = src.quantity -ℤ pos dto.quantity in
        set_quantity after (max_ℤ (pos 0) (after -ℤ src.reserved_quantity))

    abbrev pub after_source : List Stock → List Stock → Stock → Inventory D
    after_source pre post src = record s { stocks = pre ++ bumped (source_change src) src ∷ post }

    transfer_needs_source :
        {r : StockMovement × StockMovement}
        → find_first (is_stock_of dto.product dto.from_warehouse company) s.stocks ≡ none
        → (apply_transfer_stock publish dto company s).0 ≢ ok r
    unfolding apply_transfer_stock find_product_by_id find_warehouse_by_id
        find_stock_by_product_and_warehouse
    transfer_needs_source absent e = ground (arith, absent)

    -- A transfer that succeeds has written the source row and then the destination.
    transfer_writes :
        {r : StockMovement × StockMovement} (pre post : List Stock) (src : Stock)
        → find_first (is_stock_of dto.product dto.from_warehouse company) s.stocks ≡ some src
        → s.stocks ≡ pre ++ src ∷ post
        → (apply_transfer_stock publish dto company s).0 ≡ ok r
        → let found = find_first (is_destination dto company) s.stocks in
          let written =
            write_destination dto company found
              (quantity_in found +ℤ pos dto.quantity)
              (after_source pre post src) in
          (written.0 ≡ ok tt)
          × ((apply_transfer_stock publish dto company s).1.stocks ≡ written.1.stocks)
    unfolding apply_transfer_stock find_product_by_id find_warehouse_by_id
        find_stock_by_product_and_warehouse
    transfer_writes pre post src found whole e =
        let first =
          update_stock_middle dto.product dto.from_warehouse company (source_change src) s pre post
            src whole keyed found in
        let dest = find_first (is_destination dto company) s.stocks in
        let written =
          write_destination dto company dest (quantity_in dest +ℤ pos dto.quantity)
            (after_source pre post src) in
        elim (Result-cases written.0) [
          | inl (x, good) ↦
              let legs =
                record_legs_stocks dto company src.quantity (src.quantity -ℤ pos dto.quantity)
                  (quantity_in dest) (quantity_in dest +ℤ pos dto.quantity) written.1 in
              (good, ground (arith, found, first, good, legs))
          | inr (x, bad) ↦ ground (arith, found, first, bad)
        ]

    -- What leaves the source is what arrives.
    balanced :
        (k : ℕ) (before parts after : ℤ)
        → before ≡ parts
        → after ≡ parts +ℤ (if dto.product == k then pos 0 -ℤ pos dto.quantity else pos 0)
        → after +ℤ arrival k dto ≡ before
    balanced k before parts after whole taken = elim (Bool-cases (dto.product == k)) [
      | inl y ↦
          let fallen : after ≡ parts +ℤ (pos 0 -ℤ pos dto.quantity) = taken ∙ rw y refl in
          rw (y, fallen, whole) (omega int_laws)
      | inr n ↦
          let kept : after ≡ parts +ℤ pos 0 = taken ∙ rw n refl in
          rw (n, kept, whole) (omega int_laws)
    ]

    -- A transfer between two warehouses that succeeds keeps, with distinct stock row ids, the total
    -- quantity of every product over all stock rows.
    pub apply_transfer_stock_conserves :
        (k : ℕ) {r : StockMovement × StockMovement}
        → (apply_transfer_stock publish dto company s).0 ≡ ok r
        → sum_by (quantity_for k) (apply_transfer_stock publish dto company s).1.stocks
          ≡ sum_by (quantity_for k) s.stocks
    apply_transfer_stock_conserves k e =
        elim (Option-cases
          (find_first (is_stock_of dto.product dto.from_warehouse company) s.stocks)) [
            | inl absent ↦ absurd (transfer_needs_source absent e)
            | inr (src, found) ↦
                let (pre, post, whole) =
                  find_first_split (is_stock_of dto.product dto.from_warehouse company) s.stocks src
                    found in
                let mine =
                  find_first_sound (is_stock_of dto.product dto.from_warehouse company) s.stocks src
                    found in
                let t = after_source pre post src in
                let (done, same) = transfer_writes pre post src found whole e in
                let looked : find_first (is_destination dto company) t.stocks
                    ≡ find_first (is_destination dto company) s.stocks =
                  find_first-past (is_destination dto company) pre post
                    (bumped (source_change src) src) src (ground (arith, differ))
                    (ground (arith, differ))
                  ∙ rw whole refl in
                let kept =
                  bumped-IsKeyed (source_change src) pre post src (λ y. refl) (rw whole at keyed) in
                let dest = write_destination_total dto company k t kept (rw (← looked) at done) in
                let source =
                  total-middle k dto.product (pos 0 -ℤ pos dto.quantity)
                    (src.quantity -ℤ pos dto.quantity)
                    (max_ℤ (pos 0) (src.quantity -ℤ pos dto.quantity -ℤ src.reserved_quantity)) pre
                    post src (ground arith) (omega int_laws) in
                let moved =
                  subst
                    (λ z.
                      sum_by (quantity_for k)
                        (write_destination dto company z (quantity_in z +ℤ pos dto.quantity)
                          t).1.stocks
                      ≡ sum_by (quantity_for k) t.stocks +ℤ arrival k dto)
                    looked dest in
                let all = ap (sum_by (quantity_for k)) whole in
                ap (sum_by (quantity_for k)) same
                ∙ moved
                ∙ balanced k (sum_by (quantity_for k) s.stocks)
                    (sum_by (quantity_for k) (pre ++ src ∷ post)) (sum_by (quantity_for k) t.stocks)
                    all source
          ]
