-- ===== src/Events/Inbox.antt =====
-- `withInbox` and `hasBeenProcessed` of packages/events/src/inbox.ts, run in a transaction of the
-- caller that is rolled back when they throw.
use audio_book.Base.{
  ℕ, Bool, false, ◌&&◌, ◌||◌, Option, none, some, String, List, [], ◌∷◌, ◌==◌, str_eq,
  if◌then◌else◌, Result, ok, err,
}

-- The primary key of a row of `event_inbox`, whose outcome is always PROCESSED.
pub record InboxRow : Type 0 where
  pub consumer_name : String
  pub event_id : ℕ

pub data InboxOutcome (T : Type 0) : Type 0 where
  processed : T → InboxOutcome T
  skipped : InboxOutcome T

unfoldable pub has_been_processed : String → ℕ → List InboxRow → Bool
has_been_processed consumer event [] = false
has_been_processed consumer event (row ∷ rows) =
    (str_eq row.consumer_name consumer && row.event_id == event)
    || has_been_processed consumer event rows

module _ {S E T : Type 0} where
  -- `failure` is an error of the insertion other than the violation of the key.
  unfoldable pub with_inbox :
      String
      → ℕ
      → Option E
      → (S → Result E (S × T))
      → List InboxRow
      → S
      → Result E (List InboxRow × S × InboxOutcome T)
  with_inbox consumer event failure handler inbox s = elim failure [
    | some e ↦ err e
    | none ↦
        if has_been_processed consumer event inbox
        then ok (inbox, s, skipped)
        else elim (handler s) [
          | ok (after, result) ↦ ok (
            record { consumer_name = consumer; event_id = event } ∷ inbox,
            after,
            processed result,
          )
          | err e ↦ err e
        ]
  ]

  -- The transaction around it: an error leaves what stood before.
  unfoldable pub deliver :
      String → ℕ → Option E → (S → Result E (S × T)) → List InboxRow × S → List InboxRow × S
  deliver consumer event failure handler (inbox, s) =
      elim (with_inbox consumer event failure handler inbox s) [
        | ok (inbox', s', _) ↦ (inbox', s')
        | err _ ↦ (inbox, s)
      ]
