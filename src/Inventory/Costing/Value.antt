-- ===== src/Inventory/Costing/Value.antt =====
-- What one pass over the layers keeps: quantities and value.
use stock_flow.Inventory.Repository.{is_active_layer}
use stock_flow.Inventory.Costing.Drain.{
  takings-zero, drain_take, drain_skip, drain-zero, drained, takings, sum_costs, sub_zero, sub_add,
  pool, drain,
}
use stock_flow.Decimal.{IsExact, Decimal}
use stock_flow.Inventory.Tables.{CostLayer}
use stock_flow.Inventory.Costing.{consumed_of, Consumed}
use stock_flow.Prelude.{
  ap, ◌==◌, ◌∙◌, true, sym, ◌≡◌, ◌∷◌, ◌-◌, ◌+◌, ◌++◌, ℕ, refl, min, inr, inl, if◌then◌else◌, arith,
  [], List, Bool-cases,
}

module _ {D : Type 0} ⦃d : Decimal D⦄ where
  abbrev pub quantity_of : List (Consumed D) → ℕ
  quantity_of [] = 0
  quantity_of (c ∷ cs) = c.quantity + quantity_of cs

  module _ (product company : ℕ) where
    -- The value of the active layers.
    abbrev pub pool_value : List (CostLayer D) → D
    pool_value [] = d.nought
    pool_value (l ∷ ls) =
        if is_active_layer product company l
        then d.add (d.times l.unit_cost l.remaining_quantity) (pool_value ls)
        else pool_value ls

    pub pool-drain :
        (q : ℕ) (ls : List (CostLayer D))
        → pool product company (drain product company q ls) ≡ pool product company ls - q
    pool-drain q [] = omega arith
    pool-drain q (l ∷ ls) =
        ground (arith, pool-drain q ls, pool-drain (q - l.remaining_quantity) ls)

    pub quantity_of-takings :
        (q : ℕ) (ls : List (CostLayer D))
        → quantity_of (takings product company q ls) ≡ min q (pool product company ls)
    quantity_of-takings q [] = omega arith
    quantity_of-takings q (l ∷ ls) =
        ground (arith, quantity_of-takings q ls, quantity_of-takings (q - l.remaining_quantity) ls)

    pub pool-append :
        (xs ys : List (CostLayer D))
        → pool product company (xs ++ ys) ≡ pool product company xs + pool product company ys
    pool-append [] ys = omega arith
    pool-append (l ∷ xs) ys = ground (arith, pool-append xs ys)

    pub drain-append :
        (q : ℕ) (xs ys : List (CostLayer D))
        → drain product company q (xs ++ ys)
          ≡ drain product company q xs ++ drain product company (q - pool product company xs) ys
    drain-append q [] ys = rw (sub_zero q) refl
    drain-append q (l ∷ xs) ys = elim (Bool-cases (is_active_layer product company l)) [
      | inl on ↦
          rw
            (
              on,
              drain-append (q - l.remaining_quantity) xs ys,
              sub_add q l.remaining_quantity (pool product company xs),
            )
            refl
      | inr off ↦ rw (off, drain-append q xs ys) refl
    ]

  module _ (exact : IsExact D) where
    pub add_nought : (a : D) → d.add a d.nought ≡ a
    add_nought a = exact.add_comm a d.nought ∙ exact.nought-add a

    add_swap : (a b c e : D) → d.add (d.add a b) (d.add c e) ≡ d.add (d.add a c) (d.add b e)
    add_swap a b c e =
        let inner : d.add b (d.add c e) ≡ d.add c (d.add b e) =
          sym (exact.add_assoc b c e) ∙ rw (exact.add_comm b c) (exact.add_assoc c b e) in
        rw (exact.add_assoc a b (d.add c e), inner, exact.add_assoc a c (d.add b e)) refl

    pub sum_costs_from :
        (t : D) (cs : List (Consumed D)) → sum_costs t cs ≡ d.add t (sum_costs d.nought cs)
    sum_costs_from t [] = sym (add_nought t)
    sum_costs_from t (c ∷ cs) =
        rw
          (
            sum_costs_from (d.add t c.cost) cs,
            sum_costs_from (d.add d.nought c.cost) cs,
            exact.nought-add c.cost,
            exact.add_assoc t c.cost (sum_costs d.nought cs),
          )
          refl

    -- The two parts of a layer are worth what the layer was.
    times_split :
        (u : D) (q r : ℕ) → d.add (d.times u (r - min q r)) (d.times u (min q r)) ≡ d.times u r
    times_split u q r =
        let whole : r - min q r + min q r ≡ r = omega arith in
        sym (exact.times-add u (r - min q r) (min q r)) ∙ rw whole refl

    module _ (product company : ℕ) where
      -- A layer's part of the value, when it is active or empty.
      pool_value-drained :
          (l : CostLayer D) (q : ℕ) (ls : List (CostLayer D))
          → is_active_layer product company l ≡ true
          → pool_value product company (drained l q ∷ ls)
            ≡ d.add
                (d.times l.unit_cost (l.remaining_quantity - min q l.remaining_quantity))
                (pool_value product company ls)
      pool_value-drained l q ls on =
          elim (Bool-cases (is_active_layer product company (drained l q))) [
            | inl still ↦ rw still refl
            | inr empty ↦
                let none_left : l.remaining_quantity - min q l.remaining_quantity ≡ 0 =
                  ground arith in
                rw
                  (
                    empty,
                    none_left,
                    exact.times-zero l.unit_cost,
                    exact.nought-add (pool_value product company ls),
                  )
                  refl
          ]

      pool_value-drain_zero :
          (ls : List (CostLayer D))
          → d.add
              (pool_value product company (drain product company 0 ls))
              (sum_costs d.nought (takings product company 0 ls))
            ≡ pool_value product company ls
      pool_value-drain_zero ls =
          rw (drain-zero product company ls, takings-zero product company ls)
            (add_nought (pool_value product company ls))

      -- The value of the rest is kept, so that of the layer in front is.
      pool_value_taken :
          (l : CostLayer D) (q : ℕ) (ls : List (CostLayer D))
          → is_active_layer product company l ≡ true
          → let rest = drain product company (q - l.remaining_quantity) ls in
            let given = takings product company (q - l.remaining_quantity) ls in
            d.add (pool_value product company rest) (sum_costs d.nought given)
              ≡ pool_value product company ls
            → d.add
                (pool_value product company (drained l q ∷ rest))
                (sum_costs d.nought (consumed_of l q ∷ given))
              ≡ pool_value product company (l ∷ ls)
      pool_value_taken l q ls on kept =
          let rest = drain product company (q - l.remaining_quantity) ls in
          let given = takings product company (q - l.remaining_quantity) ls in
          let cost = (consumed_of l q).cost in
          let both = d.add (pool_value product company rest) (sum_costs d.nought given) in
          let front = pool_value-drained l q rest on in
          let costs : sum_costs d.nought (consumed_of l q ∷ given)
              ≡ d.add cost (sum_costs d.nought given) =
            sum_costs_from (d.add d.nought cost) given
            ∙ ap (λ z. d.add z (sum_costs d.nought given)) (exact.nought-add cost) in
          let behind : d.add (d.times l.unit_cost l.remaining_quantity)
                (pool_value product company ls)
              ≡ pool_value product company (l ∷ ls) =
            rw on refl in
          ap (λ z. d.add z (sum_costs d.nought (consumed_of l q ∷ given))) front
          ∙ ap
              (λ z.
                d.add
                  (d.add (d.times l.unit_cost (l.remaining_quantity - min q l.remaining_quantity))
                    (pool_value product company rest))
                  z)
              costs
          ∙ add_swap _ _ _ _
          ∙ ap (λ z. d.add z both) (times_split l.unit_cost q l.remaining_quantity)
          ∙ ap (λ z. d.add (d.times l.unit_cost l.remaining_quantity) z) kept
          ∙ behind

      pub pool_value-drain :
          (q : ℕ) (ls : List (CostLayer D))
          → d.add
              (pool_value product company (drain product company q ls))
              (sum_costs d.nought (takings product company q ls))
            ≡ pool_value product company ls
      pool_value-drain q [] = exact.nought-add d.nought
      pool_value-drain q (l ∷ ls) = elim (Bool-cases (is_active_layer product company l)) [
        | inr off ↦
            let skip = drain_skip product company q l ls off in
            ap
              (λ z.
                d.add (pool_value product company z)
                  (sum_costs d.nought (takings product company q (l ∷ ls))))
              skip.0
            ∙ ap
                (λ z.
                  d.add (pool_value product company (l ∷ drain product company q ls))
                    (sum_costs d.nought z))
                skip.1
            ∙ rw off (pool_value-drain q ls)
        | inl on ↦ elim (Bool-cases (q == 0)) [
          | inl none_left ↦
              let zero_left : q ≡ 0 = ground arith in rw zero_left (pool_value-drain_zero (l ∷ ls))
          | inr some_left ↦
              let take = drain_take product company q l ls on (ground arith) in
              let rest = q - l.remaining_quantity in
              ap
                (λ z.
                  d.add (pool_value product company z)
                    (sum_costs d.nought (takings product company q (l ∷ ls))))
                take.0
              ∙ ap
                  (λ z.
                    d.add (pool_value product company (drained l q ∷ drain product company rest ls))
                      (sum_costs d.nought z))
                  take.1
              ∙ pool_value_taken l q ls on (pool_value-drain rest ls)
        ]
      ]

      pub pool_value-append :
          (xs ys : List (CostLayer D))
          → pool_value product company (xs ++ ys)
            ≡ d.add (pool_value product company xs) (pool_value product company ys)
      pool_value-append [] ys = sym (exact.nought-add _)
      pool_value-append (l ∷ xs) ys = elim (Bool-cases (is_active_layer product company l)) [
        | inl on ↦ rw (on, pool_value-append xs ys) (sym (exact.add_assoc _ _ _))
        | inr off ↦ rw off (pool_value-append xs ys)
      ]
