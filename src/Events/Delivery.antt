-- ===== src/Events/Delivery.antt =====
-- At-least-once delivery through the inbox of packages/events/src/inbox.ts.
use text.Mathlib.TextEquality.{eq_iff}
use audio_book.Base.{
  ℕ, true, false, Option, none, some, String, List, [], ◌∷◌, ==_self, Result, ok, err, Result-cases,
  ◌≡◌, refl, ap, ◌∙◌, inl, inr,
}
use audio_book.Events.Inbox.{InboxRow, has_been_processed, with_inbox, deliver}

-- A delivery of an event: the failure of its insertion, if any, and the handler that it runs.
abbrev pub Delivery : Type 0 → Type 0 → Type 0 → Type 0
Delivery S E T = Option E × (S → Result E (S × T))

has_been_processed_self :
    (consumer : String) (event : ℕ) (inbox : List InboxRow)
    → has_been_processed consumer event
        (record { consumer_name = consumer; event_id = event } ∷ inbox)
      ≡ true
unfolding has_been_processed
has_been_processed_self consumer event inbox =
    rw ((eq_iff consumer consumer).1 refl, ==_self event) refl

module _ {S E T : Type 0} (consumer : String) (event : ℕ) where
  unfoldable pub deliver_all : List (Delivery S E T) → List InboxRow × S → List InboxRow × S
  deliver_all [] state = state
  deliver_all ((failure, handler) ∷ more) state =
      deliver_all more (deliver consumer event failure handler state)

  -- The effect of the first handler whose insertion and whose own work succeed, and of no other.
  unfoldable pub first_effect : List (Delivery S E T) → S → S
  first_effect [] s = s
  first_effect ((some _, handler) ∷ more) s = first_effect more s
  first_effect ((none, handler) ∷ more) s = elim (handler s) [
    | ok (after, _) ↦ after
    | err _ ↦ first_effect more s
  ]

  deliver_seen :
      (failure : Option E) (handler : S → Result E (S × T)) (inbox : List InboxRow) (s : S)
      → has_been_processed consumer event inbox ≡ true
      → deliver consumer event failure handler (inbox, s) ≡ (inbox, s)
  unfolding deliver with_inbox
  deliver_seen none handler inbox s h = rw (deliver, with_inbox, h) refl
  deliver_seen (some e) handler inbox s h = refl

  deliver_broken :
      (handler : S → Result E (S × T)) (inbox : List InboxRow) (s : S) (e : E)
      → deliver consumer event (some e) handler (inbox, s) ≡ (inbox, s)
  unfolding deliver with_inbox
  deliver_broken handler inbox s e = refl

  deliver_all_seen :
      (more : List (Delivery S E T)) (inbox : List InboxRow) (s : S)
      → has_been_processed consumer event inbox ≡ true
      → deliver_all more (inbox, s) ≡ (inbox, s)
  unfolding deliver_all
  deliver_all_seen [] inbox s h = refl
  deliver_all_seen ((failure, handler) ∷ more) inbox s h =
      ap (deliver_all more) (deliver_seen failure handler inbox s h)
      ∙ deliver_all_seen more inbox s h

  deliver_fresh :
      (handler : S → Result E (S × T)) (inbox : List InboxRow) (s after : S) (result : T)
      → has_been_processed consumer event inbox ≡ false
      → handler s ≡ ok (after, result)
      → deliver consumer event none handler (inbox, s)
        ≡ (record { consumer_name = consumer; event_id = event } ∷ inbox, after)
  unfolding deliver with_inbox
  deliver_fresh handler inbox s after result h e = rw (deliver, with_inbox, h, e) refl

  deliver_failed :
      (handler : S → Result E (S × T)) (inbox : List InboxRow) (s : S) (error : E)
      → has_been_processed consumer event inbox ≡ false
      → handler s ≡ err error
      → deliver consumer event none handler (inbox, s) ≡ (inbox, s)
  unfolding deliver with_inbox
  deliver_failed handler inbox s error h e = rw (deliver, with_inbox, h, e) refl

  -- However often an event is delivered to a consumer that has not processed it, and whatever fails
  -- on the way, the state is what the first delivery that succeeds makes of it: the failed ones are
  -- rolled back and the later ones are skipped.
  pub deliver_all_once :
      (deliveries : List (Delivery S E T)) (inbox : List InboxRow) (s : S)
      → has_been_processed consumer event inbox ≡ false
      → (deliver_all deliveries (inbox, s)).1 ≡ first_effect deliveries s
  unfolding deliver_all first_effect
  deliver_all_once [] inbox s h = refl
  deliver_all_once ((some e, handler) ∷ more) inbox s h =
      ap (λ x. (deliver_all more x).1) (deliver_broken handler inbox s e)
      ∙ deliver_all_once more inbox s h
  deliver_all_once ((none, handler) ∷ more) inbox s h = elim (Result-cases (handler s)) [
    | inl (error, e) ↦
        ap (λ x. (deliver_all more x).1) (deliver_failed handler inbox s error h e)
        ∙ deliver_all_once more inbox s h
        ∙ rw e refl
    | inr ((after, result), e) ↦
        ap (λ x. (deliver_all more x).1) (deliver_fresh handler inbox s after result h e)
        ∙ ap (λ x. x.1)
            (deliver_all_seen more (record { consumer_name = consumer; event_id = event } ∷ inbox)
              after (has_been_processed_self consumer event inbox))
        ∙ rw e refl
  ]
