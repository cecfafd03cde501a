-- ===== src/Inventory/Costing/Drain.antt =====
-- FIFO consumption is one pass over the layers, oldest first.
-- The layer after a request for q.
use stock_flow.Tx.{◌>>◌, throw_if, conflict, bind_ok, ok}
use stock_flow.Inventory.Repository.{has_remaining, consume_cost_layer, is_active_layer}
use stock_flow.Prelude.{
  ◌<◌, not, false, update_many-IsKeyed, ◌==◌, inr, inl, find_many, append_assoc, append-nil,
  Bool-cases, ◌++◌, update_many-middle, true, ltb, count_where-middle, count_where, IsKeyed, ◌≡◌,
  ◌∷◌, ◌-◌, ◌+◌, ◌&&◌, ℕ, suc, refl, min, leb, if◌then◌else◌, arith, [], List,
}
use stock_flow.Decimal.{Decimal}
use stock_flow.Inventory.Tables.{Inventory, CostLayer}
use stock_flow.Inventory.Costing.{consume_layers, consumed_of, Consumed}

pub sub_zero : (n : ℕ) → n - 0 ≡ n
sub_zero n = omega arith

zero_sub : (n : ℕ) → 0 - n ≡ 0
zero_sub n = omega arith

-- What is taken is the smaller of the two.
sub_min : (q r : ℕ) → q - min q r ≡ q - r
sub_min q r = omega arith

pub sub_add : (q r p : ℕ) → q - (r + p) ≡ q - r - p
sub_add q r p = omega arith

abbrev pub drained : {D : Type 0} → CostLayer D → ℕ → CostLayer D
drained l q = record l {
  remaining_quantity = l.remaining_quantity - min q l.remaining_quantity;
  row_version = suc l.row_version;
}

module _ {D : Type 0} ⦃d : Decimal D⦄ where
  abbrev pub sum_costs : D → List (Consumed D) → D
  sum_costs total [] = total
  sum_costs total (c ∷ cs) = sum_costs (d.add total c.cost) cs

module _ {D : Type 0} ⦃d : Decimal D⦄ (product company : ℕ) where
  -- What is left to ask for behind a layer.
  abbrev pub left : CostLayer D → ℕ → ℕ
  left l q = if is_active_layer product company l then q - l.remaining_quantity else q

  -- The table after a request for q: each active layer gives what it has until q is met.
  abbrev pub drain : ℕ → List (CostLayer D) → List (CostLayer D)
  drain q [] = []
  drain q (l ∷ ls) =
      (if is_active_layer product company l && leb 1 q then drained l q else l)
      ∷ drain (left l q) ls

  abbrev pub takings : ℕ → List (CostLayer D) → List (Consumed D)
  takings q [] = []
  takings q (l ∷ ls) =
      if is_active_layer product company l && leb 1 q
      then consumed_of l q ∷ takings (left l q) ls
      else takings (left l q) ls

  -- The quantity of the active layers.
  abbrev pub pool : List (CostLayer D) → ℕ
  pool [] = 0
  pool (l ∷ ls) =
      if is_active_layer product company l then l.remaining_quantity + pool ls else pool ls

  -- A layer that is passed over, and one that gives.
  pub drain_skip :
      (q : ℕ) (l : CostLayer D) (ls : List (CostLayer D))
      → is_active_layer product company l ≡ false
      → (drain q (l ∷ ls) ≡ l ∷ drain q ls) × (takings q (l ∷ ls) ≡ takings q ls)
  drain_skip q l ls off = (rw off refl, rw off refl)

  pub drain_take :
      (q : ℕ) (l : CostLayer D) (ls : List (CostLayer D))
      → is_active_layer product company l ≡ true
      → 0 < q
      → (drain q (l ∷ ls) ≡ drained l q ∷ drain (q - l.remaining_quantity) ls)
        × (takings q (l ∷ ls) ≡ consumed_of l q ∷ takings (q - l.remaining_quantity) ls)
  drain_take q l ls on more =
      let wanted : leb 1 q ≡ true = ground arith in (rw (on, wanted) refl, rw (on, wanted) refl)

  pub drain-zero : (ls : List (CostLayer D)) → drain 0 ls ≡ ls
  drain-zero [] = refl
  drain-zero (l ∷ ls) = ground (arith, drain-zero ls)

  pub takings-zero : (ls : List (CostLayer D)) → takings 0 ls ≡ []
  takings-zero [] = refl
  takings-zero (l ∷ ls) = ground (arith, takings-zero ls)

  -- The compare-and-set of a layer that the loop has read succeeds, and changes that layer alone.
  consume_cost_layer_middle :
      (n : ℕ) (pre ls : List (CostLayer D)) (l : CostLayer D) (s : Inventory D)
      → IsKeyed CostLayer.id (pre ++ l ∷ ls)
      → consume_cost_layer l.id n l.remaining_quantity (record s { layers = pre ++ l ∷ ls }) ≡ (
        ok true,
        record s {
          layers = pre ++ record l { remaining_quantity = n; row_version = suc l.row_version } ∷ ls;
        },
      )
  unfolding consume_cost_layer
  consume_cost_layer_middle n pre ls l s keyed =
      let p = has_remaining l.id l.remaining_quantity in
      let f =
        λ (x : CostLayer D). record x { remaining_quantity = n; row_version = suc x.row_version } in
      let own : p l ≡ true = ground arith in
      let counted : ltb 0 (count_where p (pre ++ l ∷ ls)) ≡ true =
        ground (arith, count_where-middle CostLayer.id p f pre ls l own) in
      rw (counted, update_many-middle CostLayer.id p f pre ls l (λ y h. ground arith) own keyed)
        refl

  drained-IsKeyed :
      (q : ℕ) (pre ls : List (CostLayer D)) (l : CostLayer D)
      → IsKeyed CostLayer.id (pre ++ l ∷ ls)
      → IsKeyed CostLayer.id (pre ++ drained l q ∷ ls)
  drained-IsKeyed q pre ls l keyed =
      let p = has_remaining l.id l.remaining_quantity in
      let own : p l ≡ true = ground arith in
      rw
        (← update_many-middle CostLayer.id p (λ x. drained x q) pre ls l (λ y h. ground arith) own
          keyed)
        (update_many-IsKeyed CostLayer.id (λ x. Unit) p (λ x. drained x q) (pre ++ l ∷ ls)
          (λ y. refl) keyed)

  -- A turn of the loop that takes from its layer.
  consume_layers_step :
      (pre ls rest : List (CostLayer D)) (l : CostLayer D) (q : ℕ) (total : D)
      (acc : List (Consumed D)) (s : Inventory D)
      → (q == 0) ≡ false
      → IsKeyed CostLayer.id (pre ++ l ∷ ls)
      → consume_layers (l ∷ rest) q total acc (record s { layers = pre ++ l ∷ ls })
        ≡ consume_layers rest
            (q - min q l.remaining_quantity)
            (d.add total (consumed_of l q).cost)
            (acc ++ (consumed_of l q ∷ []))
            (record s { layers = pre ++ drained l q ∷ ls })
  unfolding consume_layers
  consume_layers_step pre ls rest l q total acc s more keyed =
      let n = l.remaining_quantity - min q l.remaining_quantity in
      rw more (
        bind_ok (consume_cost_layer l.id n l.remaining_quantity)
          (λ updated.
            throw_if (not updated) conflict
            >> consume_layers rest (q - min q l.remaining_quantity)
                (d.add total (consumed_of l q).cost) (acc ++ (consumed_of l q ∷ [])))
          (record s { layers = pre ++ l ∷ ls }) (record s { layers = pre ++ drained l q ∷ ls }) true
          (consume_cost_layer_middle n pre ls l s keyed))

  -- The loop from any point of the table, the layers before it being done.
  pub consume_layers_lem :
      (ls pre : List (CostLayer D)) (q : ℕ) (total : D) (acc : List (Consumed D)) (s : Inventory D)
      → IsKeyed CostLayer.id (pre ++ ls)
      → consume_layers
          (find_many (is_active_layer product company) ls)
          q
          total
          acc
          (record s { layers = pre ++ ls })
        ≡ (
          ok (q - pool ls, sum_costs total (takings q ls), acc ++ takings q ls),
          record s { layers = pre ++ drain q ls },
        )
  unfolding consume_layers
  consume_layers_lem [] pre q total acc s keyed = rw (append-nil acc, sub_zero q) refl
  consume_layers_lem (l ∷ ls) pre q total acc s keyed =
      elim (Bool-cases (is_active_layer product company l)) [
        | inr off ↦
            let later =
              consume_layers_lem ls (pre ++ (l ∷ [])) q total acc s
                (rw (append_assoc pre (l ∷ []) ls) keyed) in
            let moved = append_assoc pre (l ∷ []) in
            rw off (rw (moved ls, moved (drain q ls)) at later)
        | inl on ↦ elim (Bool-cases (q == 0)) [
          | inl none_left ↦
              let zero_left : q ≡ 0 = ground arith in
              rw
                (
                  on,
                  zero_left,
                  zero_sub (l.remaining_quantity + pool ls),
                  zero_sub l.remaining_quantity,
                  drain-zero ls,
                  takings-zero ls,
                  append-nil acc,
                )
                refl
          | inr some_left ↦
              let wanted : leb 1 q ≡ true = ground arith in
              let c = consumed_of l q in
              let moved = append_assoc pre (drained l q ∷ []) in
              let rest = q - l.remaining_quantity in
              let later =
                consume_layers_lem ls (pre ++ (drained l q ∷ [])) rest (d.add total c.cost)
                  (acc ++ (c ∷ [])) s (rw (moved ls) (drained-IsKeyed q pre ls l keyed)) in
              rw
                (
                  on,
                  wanted,
                  consume_layers_step pre ls (find_many (is_active_layer product company) ls) l q
                      total acc s some_left keyed,
                  sub_min q l.remaining_quantity,
                  sub_add q l.remaining_quantity (pool ls),
                )
                (rw (moved ls, moved (drain rest ls), append_assoc acc (c ∷ []) (takings rest ls))
                  at later)
        ]
      ]
