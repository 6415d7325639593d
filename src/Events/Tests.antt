-- ===== src/Events/Tests.antt =====
-- Concrete rows and deliveries for the outbox and the inbox of packages/events/src.
use audio_book.Base.{
  ℕ, suc, true, false, none, some, List, [], ◌∷◌, ◌≡◌, refl, ◌==◌, leb, if◌then◌else◌, ok, err,
}
use audio_book.Events.{
  ClaimedOutboxRow, Poller, Outbox, claim_pending, relay_once, relay_rows, relay_row, record_error,
  in_order, insert_in_order, write_outbox_message,
}
use audio_book.Events.Inbox.{has_been_processed}
use audio_book.Events.Delivery.{Delivery, deliver_all, first_effect, deliver_all_once}

abbrev fact : ℕ → ClaimedOutboxRow
fact n = record {
  id = n;
  event_id = n;
  event_type = "job.cancelled";
  schema_version = "1.0.0";
  occurred_at = n;
  tenant_id = 1;
  book_id = none;
  job_id = some n;
  correlation_id = n;
  causation_id = n;
  traceparent = none;
  producer = "api";
  producer_version = "0.1.0";
  payload = "{}";
  aggregate_type = "job";
  aggregate_id = n;
}

abbrev two_messages : Outbox
two_messages = record {
  rows = write_outbox_message 2 2 20 (fact 2) (write_outbox_message 1 1 10 (fact 1) []);
  sent = [];
}

-- The first message is refused, the second is taken.
abbrev poller : Poller
poller = record {
  before = λ a b. leb a.fact.id b.fact.id;
  locked = λ _. false;
  batch_size = 10;
  now = 50;
  publish = λ f. if f.id == 1 then some "redis is down" else none;
  updates = λ i. none;
  diagnoses = λ i. true;
  commits = true;
}

two_messages_sent :
    (relay_once poller two_messages).0.sent ≡ record (fact 2) { occurred_at = 20 } ∷ []
unfolding relay_once relay_rows relay_row record_error claim_pending in_order insert_in_order
    write_outbox_message
two_messages_sent = refl

abbrev deliveries : List (Delivery ℕ ℕ ℕ)
deliveries =
    (none, λ n. err 5)
    ∷ (some 7, λ n. ok (suc n, n))
    ∷ (none, λ n. ok (suc n, n))
    ∷ (none, λ n. ok (suc n, n))
    ∷ []

deliver_all_once_example : (deliver_all "mailer" 9 deliveries ([], 0)).1 ≡ 1
unfolding has_been_processed first_effect
deliver_all_once_example = deliver_all_once "mailer" 9 deliveries [] 0 refl
