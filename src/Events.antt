-- ===== src/Events.antt =====
-- The relay of events, packages/events/src: the outbox rows (outbox.ts) and the publisher that polls
-- them (outbox-publisher.ts). `publish` and the order of the database are parameters.
pub mod Settle
pub mod Relay
pub mod Inbox
pub mod Delivery
mod Tests
use audio_book.Base.{
  ℕ, suc, ◌+◌, Bool, true, false, ◌&&◌, not, Option, none, some, String, List, [], ◌∷◌, ◌++◌, ◌==◌,
  map, select, take, length, if◌then◌else◌,
}

-- The fact that a row records; what `publish` is given.
pub record ClaimedOutboxRow : Type 0 where
  pub id : ℕ
  pub event_id : ℕ
  pub event_type : String
  pub schema_version : String
  pub occurred_at : ℕ
  pub tenant_id : ℕ
  pub book_id : Option ℕ
  pub job_id : Option ℕ
  pub correlation_id : ℕ
  pub causation_id : ℕ
  pub traceparent : Option String
  pub producer : String
  pub producer_version : String
  pub payload : String
  pub aggregate_type : String
  pub aggregate_id : ℕ

pub data OutboxStatus : Type 0 where
  pending published failed : OutboxStatus

-- A row of `outbox_message`.
pub record OutboxMessage : Type 0 where
  pub fact : ClaimedOutboxRow
  pub status : OutboxStatus
  pub publish_attempts : ℕ
  pub published_at : Option ℕ
  pub last_error : Option String

-- `writeOutboxMessage`: the row of a draft, with the identifiers and the time that it mints.
unfoldable pub write_outbox_message :
    ℕ → ℕ → ℕ → ClaimedOutboxRow → List OutboxMessage → List OutboxMessage
write_outbox_message id event_id now draft rows =
    rows
    ++ record {
      fact = record draft { id = id; event_id = event_id; occurred_at = now };
      status = pending;
      publish_attempts = 0;
      published_at = none;
      last_error = none;
    }
      ∷ []

abbrev pub is_pending : OutboxStatus → Bool
is_pending pending = true
is_pending published = false
is_pending failed = false

unfoldable pub insert_in_order :
    (OutboxMessage → OutboxMessage → Bool) → OutboxMessage → List OutboxMessage → List OutboxMessage
insert_in_order before r [] = r ∷ []
insert_in_order before r (s ∷ ss) =
    let rest = insert_in_order before r ss in if before r s then r ∷ s ∷ ss else s ∷ rest

-- `ORDER BY aggregate_type, aggregate_id, created_at`, where `before` compares two rows by these.
unfoldable pub in_order :
    (OutboxMessage → OutboxMessage → Bool) → List OutboxMessage → List OutboxMessage
in_order before [] = []
in_order before (r ∷ rs) = insert_in_order before r (in_order before rs)

-- What one poller sees: the order, the rows that others hold (`SKIP LOCKED`), the batch size and the
-- clock. `publish`, and the update to PUBLISHED of a row, answer nothing or the text of their error;
-- `diagnoses` says whether the update in the `catch` of a row succeeds, and `commits` whether the
-- transaction does.
pub record Poller : Type 0 where
  pub before : OutboxMessage → OutboxMessage → Bool
  pub locked : ℕ → Bool
  pub batch_size : ℕ
  pub now : ℕ
  pub publish : ClaimedOutboxRow → Option String
  pub updates : ℕ → Option String
  pub diagnoses : ℕ → Bool
  pub commits : Bool

unfoldable pub claim_pending : Poller → List OutboxMessage → List OutboxMessage
claim_pending p rows =
    take p.batch_size
      (in_order p.before (select (λ r. is_pending r.status && not (p.locked r.fact.id)) rows))

unfoldable pub mark_published : ℕ → OutboxMessage → OutboxMessage
mark_published now r = record r {
  status = published;
  published_at = some now;
  publish_attempts = r.publish_attempts + 1;
}

unfoldable pub mark_error : String → OutboxMessage → OutboxMessage
mark_error error r = record r { publish_attempts = r.publish_attempts + 1; last_error = some error }

unfoldable pub update_message :
    ℕ → (OutboxMessage → OutboxMessage) → List OutboxMessage → List OutboxMessage
update_message i f rows = map (λ r. if r.fact.id == i then f r else r) rows

-- The table, and the facts that were published, in order.
pub record Outbox : Type 0 where
  pub rows : List OutboxMessage
  pub sent : List ClaimedOutboxRow

-- The `catch`; it answers whether the loop goes on.
unfoldable pub record_error : Poller → OutboxMessage → String → Outbox → Outbox × Bool
record_error p r error o =
    if p.diagnoses r.fact.id
    then (record o { rows = update_message r.fact.id (mark_error error) o.rows }, true)
    else (o, false)

-- The body of the loop for one claimed row: `publish`, and then the update of the row.
unfoldable pub relay_row : Poller → OutboxMessage → Outbox → Outbox × Bool
relay_row p r o = elim (p.publish r.fact) [
  | some error ↦ record_error p r error o
  | none ↦
      let sent = record o { sent = o.sent ++ r.fact ∷ [] } in
      elim (p.updates r.fact.id) [
        | some error ↦ record_error p r error sent
        | none ↦
            (record sent { rows = update_message r.fact.id (mark_published p.now) o.rows }, true)
      ]
]

unfoldable pub relay_rows : Poller → List OutboxMessage → Outbox → Outbox × Bool
relay_rows p [] o = (o, true)
relay_rows p (r ∷ rs) o =
    let one = relay_row p r o in
    let rest = relay_rows p rs one.0 in if one.1 then rest else (one.0, false)

-- `OutboxPublisher.pollOnce`: a poll that throws answers nothing and leaves the rows as they were,
-- but what it has published stays published.
unfoldable pub relay_once : Poller → Outbox → Outbox × Option ℕ
relay_once p o =
    let rows = claim_pending p o.rows in
    let after = relay_rows p rows o in
    if after.1 && p.commits
    then (after.0, some (length rows))
    else (record { rows = o.rows; sent = after.0.sent }, none)
