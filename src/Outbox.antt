-- ===== src/Outbox.antt =====
-- backend/src/shared/events/outbox.service.ts: the transactional outbox over the table
-- `capere.domain_events`. Times are milliseconds, ids and claim tokens are UUIDs read as numbers.
pub mod Ownership
pub mod Invariant
pub mod Attempts
pub mod Exclusive
pub mod Batch
pub mod Bus
pub mod Relay
mod Tests
use capere_ai.Base.{
  ℕ, ◌+◌, ◌-◌, String, Bool, true, false, not, ◌&&◌, ◌||◌, Option, none, some, List, [], ◌∷◌, ◌++◌,
  map, ltb, leb, ◌==◌, if◌then◌else◌, is_none, some_and, find, elem, take, select, update, order_by,
  order_by_desc, length,
}

-- A message: UTF-16 code units, as JavaScript's `slice` counts them.
abbrev pub Text : Type 0
Text = List ℕ

-- A row of `capere.domain_events`.
pub record EventRow : Type 0 where
  pub id : ℕ
  pub event_type : String
  pub organization_id : ℕ
  pub aggregate_type : Option String
  pub aggregate_id : Option ℕ
  pub payload_version : ℕ
  pub payload : String
  pub created_at : ℕ
  pub attempts : ℕ
  pub max_attempts : ℕ
  pub last_error : Option Text
  pub claimed_at : Option ℕ
  pub claim_token : Option ℕ
  pub published_at : Option ℕ
  pub consumed_at : Option ℕ

abbrev pub Table : Type 0
Table = List EventRow

pub record EventToPublish : Type 0 where
  pub event_type : String
  pub organization_id : ℕ
  pub aggregate_type : Option String
  pub aggregate_id : Option ℕ
  pub payload_version : Option ℕ
  pub payload : String

pub record DomainEvent : Type 0 where
  pub id : ℕ
  pub event_type : String
  pub organization_id : ℕ
  pub payload : String
  pub payload_version : ℕ
  pub aggregate_type : Option String
  pub aggregate_id : Option ℕ
  pub occurred_at : ℕ

pub record ClaimedDomainEvent : Type 0 where
  pub event : DomainEvent
  pub claim_token : ℕ

abbrev get_or : Option ℕ → ℕ → ℕ
get_or none d = d
get_or (some n) d = n

-- The id and the time come from the database; the columns left out have the table's defaults.
pub publish_in_transaction : ℕ → ℕ → EventToPublish → Table → Table
publish_in_transaction id now event rows = rows ++ row ∷ []
  where
    row : EventRow
    row = record {
      id = id;
      event_type = event.event_type;
      organization_id = event.organization_id;
      aggregate_type = event.aggregate_type;
      aggregate_id = event.aggregate_id;
      payload_version = get_or event.payload_version 1;
      payload = event.payload;
      created_at = now;
      attempts = 0;
      max_attempts = 5;
      last_error = none;
      claimed_at = none;
      claim_token = none;
      published_at = none;
      consumed_at = none;
    }

abbrev stale_after : ℕ
stale_after = 300000

-- The `where` of `claimBatch`. A moment before the epoch cannot be a claim's time, so the
-- subtraction may stop at 0.
pub is_claimable : ℕ → EventRow → Bool
is_claimable now r =
    is_none r.consumed_at
    && (is_none r.claimed_at || some_and (λ t. ltb t (now - stale_after)) r.claimed_at)
    && ltb r.attempts r.max_attempts

pub to_event : EventRow → DomainEvent
to_event r = record {
  id = r.id;
  event_type = r.event_type;
  organization_id = r.organization_id;
  payload = r.payload;
  payload_version = r.payload_version;
  aggregate_type = r.aggregate_type;
  aggregate_id = r.aggregate_id;
  occurred_at = r.created_at;
}

abbrev pub claim : ℕ → ℕ → EventRow → EventRow
claim token now r = record r { claimed_at = some now; claim_token = some token }

abbrev pub ids : List EventRow → List ℕ
ids = map (λ r. r.id)

-- The rows that `claimBatch` selects. `locked` are the rows that other transactions hold, which
-- SKIP LOCKED leaves out.
pub claim_rows : (ℕ → Bool) → ℕ → ℕ → Table → List EventRow
unfolding is_claimable
claim_rows locked now limit rows =
    take limit
      (order_by (λ r. r.created_at) (select (λ r. is_claimable now r && not (locked r.id)) rows))

-- With no row selected the update changes nothing, as the early return does.
pub claim_batch : (ℕ → Bool) → ℕ → ℕ → ℕ → Table → Table × List ClaimedDomainEvent
unfolding claim_rows to_event
claim_batch locked token now limit rows =
    let batch = claim_rows locked now limit rows in
    (
      update (λ r. elem r.id (ids batch)) (claim token now) rows,
      map (λ r. record { event = to_event r; claim_token = token }) batch,
    )

abbrev owns : ℕ → ℕ → EventRow → Bool
owns event_id token r = r.id == event_id && some_and (λ t. t == token) r.claim_token

-- A worker that no longer owns the claim gets an error, and `none` stands for it.
abbrev pub update_owned : ℕ → ℕ → (EventRow → EventRow) → Table → Option Table
update_owned event_id token f rows = elim (find (owns event_id token) rows) [
  | none ↦ none
  | some r ↦ some (update (owns event_id token) f rows)
]

abbrev pub consume : ℕ → EventRow → EventRow
consume now r = record r {
  consumed_at = some now;
  published_at = some now;
  claimed_at = none;
  claim_token = none;
}

pub mark_consumed : ℕ → ℕ → ℕ → Table → Option Table
mark_consumed now event_id token = update_owned event_id token (consume now)

abbrev pub fail : Text → EventRow → EventRow
fail error r = record r {
  attempts = r.attempts + 1;
  last_error = some (take 2000 error);
  claimed_at = none;
  claim_token = none;
}

pub mark_failed : ℕ → ℕ → Text → Table → Option Table
mark_failed event_id token error = update_owned event_id token (fail error)

pub is_dead : EventRow → Bool
is_dead r = leb r.max_attempts r.attempts && is_none r.consumed_at

-- `deadLettered`
pub dead_lettered : ℕ → Table → List DomainEvent
unfolding is_dead to_event
dead_lettered limit rows =
    map to_event (take limit (order_by_desc (λ r. r.created_at) (select is_dead rows)))

pub is_pending : EventRow → Bool
is_pending r = is_none r.consumed_at && ltb r.attempts r.max_attempts

-- `stats`: pending and dead-lettered.
pub stats : Table → ℕ × ℕ
unfolding is_dead is_pending
stats rows = (length (select is_pending rows), length (select is_dead rows))
