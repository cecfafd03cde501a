-- ===== src/Idempotency.antt =====
-- `IdempotencyService` (backend/src/infrastructure/idempotency/idempotency.service.ts) and
-- `runWithIdempotency` (backend/src/infrastructure/idempotency/idempotency.helper.ts). A time is a
-- number of milliseconds. The business tables and the JSON values of the responses are any types;
-- business code does not touch the reservations.
use stock_flow.Inventory.Costing.Conservation.{outcome}
use stock_flow.Tx.{
  ◌>>◌, ◌>>=◌, unprocessable_entity, transaction, throw, pure, out_of_fuel, ok, modify, gets,
  conflict, Tx,
}
use stock_flow.Prelude.{
  ◌∷◌, ◌==◌, ◌+◌, ◌++◌, ◌&&◌, ⊤, ℕ, zero, update_many, suc, some, not, none, ltb, length, leb,
  if◌then◌else◌, find_many, find_first, count_where, any_where, [], Option, List, Bool,
}
pub mod Reserving
pub mod Running
pub mod Business

pub record IdempotencyRecord (B : Type 0) : Type 0 where
  pub id : ℕ
  pub company : ℕ
  pub idempotency_key : ℕ
  pub endpoint : ℕ
  pub request_hash : ℕ
  pub response_status : ℕ
  pub response_body : B
  pub expires_at : ℕ

pub record Store (S B : Type 0) : Type 0 where
  pub business : S
  pub records : List (IdempotencyRecord B)
  pub next_id : ℕ

pub record ReserveParams : Type 0 where
  pub company : ℕ
  pub idempotency_key : ℕ
  pub endpoint : ℕ
  pub request_hash : ℕ
  pub expires_at : Option ℕ
  pub now : ℕ

pub data ReserveResult (B : Type 0) : Type 0 where
  created : ℕ → ReserveResult B
  pending : ReserveResult B
  replayed : ℕ → B → ReserveResult B

pub data ExecuteResult (B : Type 0) : Type 0 where
  completed : ℕ → B → ExecuteResult B
  pending : ExecuteResult B
  replayed : ℕ → B → ExecuteResult B

abbrev pub ttl_ms : ℕ
ttl_ms = 86400000

abbrev pub pending_status : ℕ
pending_status = 0

abbrev pub expires_at_for : Option ℕ → ℕ → ℕ
expires_at_for none now = now + ttl_ms
expires_at_for (some t) now = t

abbrev pub is_record_of : {B : Type 0} → ℕ → ℕ → IdempotencyRecord B → Bool
is_record_of company key r = r.company == company && r.idempotency_key == key

abbrev pub is_pending : {B : Type 0} → ℕ → ℕ → IdempotencyRecord B → Bool
is_pending company key r = is_record_of company key r && r.response_status == pending_status

abbrev pub without : {B : Type 0} → ℕ → List (IdempotencyRecord B) → List (IdempotencyRecord B)
without id records = find_many (λ r. not (r.id == id)) records

-- `pending_body` is the sentinel of a reservation in flight.
module _ {B : Type 0} (pending_body : B) where
  abbrev pub reservation : ReserveParams → ℕ → IdempotencyRecord B
  reservation p id = record {
    id = id;
    company = p.company;
    idempotency_key = p.idempotency_key;
    endpoint = p.endpoint;
    request_hash = p.request_hash;
    response_status = pending_status;
    response_body = pending_body;
    expires_at = expires_at_for p.expires_at p.now;
  }

module _ {S B : Type 0} (pending_body : B) where
  -- `createMany` with `skipDuplicates`: how many rows were inserted.
  unfoldable pub insert_reservation : ReserveParams → Tx (Store S B) ℕ
  insert_reservation p s =
      if any_where (is_record_of p.company p.idempotency_key) s.records then (ok 0, s) else (
        ok 1,
        record s {
          records = s.records ++ (reservation pending_body p s.next_id ∷ []);
          next_id = suc s.next_id;
        },
      )

  -- The recursion of `reserve` has fuel: a call that repeats has deleted a record.
  unfoldable pub reserve_within : ℕ → ReserveParams → Tx (Store S B) (ReserveResult B)
  reserve_within zero p = throw out_of_fuel
  reserve_within (suc fuel) p =
      let again = reserve_within fuel p in
      (do
        count ← insert_reservation p
        existing ← gets λ s. find_first (is_record_of p.company p.idempotency_key) s.records
        if count == 1 then pure (ReserveResult.created p.request_hash) else elim existing [
          | none ↦ again
          | some r ↦
              if leb r.expires_at p.now
              then modify (λ s. record s { records = without r.id s.records }) >> again
              else (if not (r.request_hash == p.request_hash)
                  then throw unprocessable_entity
                  else (if r.response_status == pending_status
                      then pure ReserveResult.pending
                      else pure (ReserveResult.replayed r.response_status r.response_body)))
        ])

  unfoldable pub reserve_key : ReserveParams → Tx (Store S B) (ReserveResult B)
  unfolding reserve_within
  reserve_key p s = reserve_within (suc (length s.records)) p s

module _ {S B : Type 0} where
  -- The business code runs on the business tables of the same transaction.
  unfoldable pub on_business : {A : Type 0} → Tx S A → Tx (Store S B) A
  on_business work s = let (r, t) = work s.business in (r, record s { business = t })

  unfoldable pub replay : ℕ → ℕ → ℕ → Tx (Store S B) (Option (ℕ × B))
  replay company key now = do
    existing ← gets λ s. find_first (is_record_of company key) s.records
    pure (elim existing [
      | none ↦ none
      | some r ↦
          if leb r.expires_at now
          then none
          else (if r.response_status == pending_status
              then none
              else some (r.response_status, r.response_body))
    ])

  unfoldable pub cleanup_expired : ℕ → Tx (Store S B) ℕ
  cleanup_expired now = do
    count ← gets λ s. count_where (λ r. ltb r.expires_at now) s.records
    modify λ s. record s { records = find_many (λ r. not (ltb r.expires_at now)) s.records }
    pure count

-- `to_json` is the round trip of a body through JSON.
module _ {S B : Type 0} (to_json : B → B) where
  unfoldable pub complete : ℕ → ℕ → ℕ → B → Tx (Store S B) ⊤
  complete company key status body = modify λ s. record s {
    records =
        update_many (is_pending company key)
          (λ r. record r { response_status = status; response_body = to_json body }) s.records;
  }

module _ {S B : Type 0} (pending_body : B) (to_json : B → B) where
  unfoldable pub run_with_idempotency :
      Option ℕ → ℕ → ℕ → ℕ → ℕ → ℕ → Tx S B → Tx (Store S B) (ℕ × B)
  unfolding reserve_key complete on_business transaction
  run_with_idempotency none company endpoint request_hash now status work =
      transaction (do body ← on_business work; pure (status, body))
  run_with_idempotency (some key) company endpoint request_hash now status work = transaction (do
    outcome ← reserve_key pending_body (record {
      company = company;
      idempotency_key = key;
      endpoint = endpoint;
      request_hash = request_hash;
      expires_at = none;
      now = now;
    })
    elim outcome [
      | ReserveResult.replayed stored body ↦ pure (stored, body)
      | ReserveResult.pending ↦ throw conflict
      | ReserveResult.created _ ↦ (do
        body ← on_business work
        complete to_json company key status body
        pure (status, body))
    ])

  unfoldable pub execute : ReserveParams → Tx S (ℕ × B) → Tx (Store S B) (ExecuteResult B)
  unfolding reserve_key complete on_business transaction
  execute p work = transaction (do
    outcome ← reserve_key pending_body p
    elim outcome [
      | ReserveResult.replayed stored body ↦ pure (ExecuteResult.replayed stored body)
      | ReserveResult.pending ↦ pure ExecuteResult.pending
      | ReserveResult.created _ ↦ (do
        answer ← on_business work
        complete to_json p.company p.idempotency_key answer.0 answer.1
        pure (ExecuteResult.completed answer.0 answer.1))
    ])
