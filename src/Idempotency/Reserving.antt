-- ===== src/Idempotency/Reserving.antt =====
-- `reserve` on each of its branches, and why its recursion ends.
use stock_flow.Tx.{unprocessable_entity, ok, err}
use stock_flow.Idempotency.{
  without, reserve_within, reservation, pending_status, is_record_of, insert_reservation, Store,
  ReserveResult, ReserveParams, IdempotencyRecord,
}
use stock_flow.Prelude.{
  ◌≤◌, ◌≡◌, ◌∷◌, ◌==◌, ◌<◌, ◌++◌, ℕ, true, suc, some-injective, some, refl, not, none, length, inr,
  inl, if◌then◌else◌, find_first, false, arith, ap, any_where, [], List, Bool-cases, Bool,
}

module _ {A : Type 0} where
  any_where-none : (p : A → Bool) (xs : List A) → find_first p xs ≡ none → any_where p xs ≡ false
  any_where-none p [] e = refl
  any_where-none p (x ∷ xs) e = ground (arith, any_where-none p xs)

  any_where-some :
      (p : A → Bool) (xs : List A) (x : A) → find_first p xs ≡ some x → any_where p xs ≡ true
  any_where-some p [] x e = cc
  any_where-some p (y ∷ xs) x e = ground (arith, any_where-some p xs x)

without-le :
    {B : Type 0} (id : ℕ) (rs : List (IdempotencyRecord B)) → length (without id rs) ≤ length rs
without-le id [] = omega arith
without-le id (r ∷ rs) = ground (arith, without-le id rs)

-- Deleting a record that was found makes the table shorter.
pub length-without :
    {B : Type 0} (p : IdempotencyRecord B → Bool) (rs : List (IdempotencyRecord B))
    (r : IdempotencyRecord B)
    → find_first p rs ≡ some r
    → length (without r.id rs) < length rs
length-without p [] r e = cc
length-without p (x ∷ rs) r e = elim (Bool-cases (p x)) [
  | inl t ↦
      let same : x ≡ r = some-injective _ _ (rw t at e) in
      let gone : (x.id == r.id) ≡ true = ground (arith, ap IdempotencyRecord.id same) in
      let shorter = without-le r.id rs in rw gone (omega arith)
  | inr n ↦ let shorter = length-without p rs r (rw n at e) in ground arith
]

module _ {S B : Type 0} (pending_body : B) (p : ReserveParams) (s : Store S B) where
  insert_absent :
      find_first (is_record_of p.company p.idempotency_key) s.records ≡ none
      → insert_reservation pending_body p s ≡ (
        ok 1,
        record s {
          records = s.records ++ (reservation pending_body p s.next_id ∷ []);
          next_id = suc s.next_id;
        },
      )
  unfolding insert_reservation
  insert_absent e = rw (any_where-none (is_record_of p.company p.idempotency_key) s.records e) refl

  insert_taken :
      (r : IdempotencyRecord B)
      → find_first (is_record_of p.company p.idempotency_key) s.records ≡ some r
      → insert_reservation pending_body p s ≡ (ok 0, s)
  unfolding insert_reservation
  insert_taken r e =
      rw (any_where-some (is_record_of p.company p.idempotency_key) s.records r e) refl

  pub reserve_absent :
      (fuel : ℕ)
      → find_first (is_record_of p.company p.idempotency_key) s.records ≡ none
      → reserve_within pending_body (suc fuel) p s ≡ (
        ok (ReserveResult.created p.request_hash),
        record s {
          records = s.records ++ (reservation pending_body p s.next_id ∷ []);
          next_id = suc s.next_id;
        },
      )
  unfolding reserve_within
  reserve_absent fuel e = ground (arith, insert_absent e)

  -- A record that has not expired decides, and nothing is written.
  pub reserve_live :
      (fuel : ℕ) (r : IdempotencyRecord B)
      → find_first (is_record_of p.company p.idempotency_key) s.records ≡ some r
      → p.now < r.expires_at
      → reserve_within pending_body (suc fuel) p s ≡ (
        (if not (r.request_hash == p.request_hash)
            then err unprocessable_entity
            else (if r.response_status == pending_status
                then ok ReserveResult.pending
                else ok (ReserveResult.replayed r.response_status r.response_body))),
        s,
      )
  unfolding reserve_within
  reserve_live fuel r e h = ground (arith, e, insert_taken r e)

  pub reserve_expired :
      (fuel : ℕ) (r : IdempotencyRecord B)
      → find_first (is_record_of p.company p.idempotency_key) s.records ≡ some r
      → r.expires_at ≤ p.now
      → reserve_within pending_body (suc fuel) p s
        ≡ reserve_within pending_body fuel p (record s { records = without r.id s.records })
  unfolding reserve_within
  reserve_expired fuel r e h = ground (arith, e, insert_taken r e)
