-- ===== src/Events/Settle.antt =====
-- What the loop of a poll of packages/events/src/outbox-publisher.ts makes of the rows that it claimed.
use mathlib.Core.List.{Memᴰ, map-map, map-id, append-nil, append_assoc}
use audio_book.Base.{
  Bool, true, false, not, Option, none, some, String, List, [], ◌∷◌, ◌++◌, ◌==◌, map, ◌≡◌, refl,
  sym, ap, ◌∙◌, subst, select, if◌then◌else◌, inl, inr, Bool-cases, Option-cases, ==_self, is_some,
}
use audio_book.Events.{
  OutboxMessage, is_pending, Poller, mark_published, mark_error, update_message, Outbox,
  record_error, relay_row, relay_rows,
}

abbrev pub accepted : Poller → OutboxMessage → Bool
accepted p r = not (is_some (p.publish r.fact))

-- The error of a row, if it has one: of `publish`, or of the update that follows.
abbrev error_of : Poller → OutboxMessage → Option String
error_of p r = elim (p.publish r.fact) [ some error ↦ some error | none ↦ p.updates r.fact.id ]

-- The row is published, and marked as published.
abbrev pub marked : Poller → OutboxMessage → Bool
marked p r = not (is_some (error_of p r))

relay_rows_nil : (p : Poller) (o : Outbox) → (relay_rows p [] o).0.rows ≡ o.rows
unfolding relay_rows
relay_rows_nil p o = refl

relay_rows_nil_sent : (p : Poller) (o : Outbox) → (relay_rows p [] o).0.sent ≡ o.sent
unfolding relay_rows
relay_rows_nil_sent p o = refl

module _ (p : Poller) where
  -- What the error of a row makes of it.
  finish : Option String → OutboxMessage → OutboxMessage
  finish none r = mark_published p.now r
  finish (some error) r = mark_error error r

  settle : OutboxMessage → OutboxMessage → OutboxMessage
  settle b r = if r.fact.id == b.fact.id then finish (error_of p b) r else r

  pub settled : List OutboxMessage → OutboxMessage → OutboxMessage
  settled [] r = r
  settled (b ∷ bs) r = settled bs (settle b r)

  record_error-rows :
      (b : OutboxMessage) (error : String) (o : Outbox)
      → (record_error p b error o).1 ≡ true
      → (record_error p b error o).0.rows
        ≡ map (λ r. if r.fact.id == b.fact.id then mark_error error r else r) o.rows
  unfolding record_error update_message
  record_error-rows b error o on = elim (Bool-cases (p.diagnoses b.fact.id)) [
    | inl d ↦ rw d refl
    | inr d ↦ let off : (record_error p b error o).1 ≡ false = rw d refl in cc
  ]

  record_error-sent :
      (b : OutboxMessage) (error : String) (o : Outbox) → (record_error p b error o).0.sent ≡ o.sent
  unfolding record_error
  record_error-sent b error o = elim (Bool-cases (p.diagnoses b.fact.id)) [
    | inl d ↦ rw d refl
    | inr d ↦ rw d refl
  ]

  -- The three ways through the body of the loop.
  relay_row_refused :
      (b : OutboxMessage) (o : Outbox) (error : String)
      → p.publish b.fact ≡ some error
      → (relay_row p b o ≡ record_error p b error o)
        × (error_of p b ≡ some error)
        × (accepted p b ≡ false)
  unfolding relay_row
  relay_row_refused b o error e = (rw (relay_row, e) refl, rw (error_of, e) refl, rw e refl)

  abbrev sent : OutboxMessage → Outbox → Outbox
  sent b o = record o { sent = o.sent ++ b.fact ∷ [] }

  relay_row_unmarked :
      (b : OutboxMessage) (o : Outbox) (error : String)
      → p.publish b.fact ≡ none
      → p.updates b.fact.id ≡ some error
      → (relay_row p b o ≡ record_error p b error (sent b o))
        × (error_of p b ≡ some error)
        × (accepted p b ≡ true)
  unfolding relay_row
  relay_row_unmarked b o error e u =
      (rw (relay_row, e, u) refl, rw (error_of, e, u) refl, rw e refl)

  relay_row_marked :
      (b : OutboxMessage) (o : Outbox)
      → p.publish b.fact ≡ none
      → p.updates b.fact.id ≡ none
      → (relay_row p b o ≡ (
        record (sent b o) { rows = update_message b.fact.id (mark_published p.now) o.rows },
        true,
      ))
        × (error_of p b ≡ none)
        × (accepted p b ≡ true)
  unfolding relay_row
  relay_row_marked b o e u = (rw (relay_row, e, u) refl, rw (error_of, e, u) refl, rw e refl)

  settled_by :
      (b : OutboxMessage) (x : Option String) (rows : List OutboxMessage)
      → error_of p b ≡ x
      → map (λ r. if r.fact.id == b.fact.id then finish x r else r) rows ≡ map (settle b) rows
  unfolding settle
  settled_by b x rows e =
      ap (λ x. map (λ r. if r.fact.id == b.fact.id then finish x r else r) rows) (sym e)

  failed-rows :
      (b : OutboxMessage) (error : String) (o : Outbox)
      → error_of p b ≡ some error
      → (record_error p b error o).1 ≡ true
      → (record_error p b error o).0.rows ≡ map (settle b) o.rows
  unfolding finish
  failed-rows b error o e on = record_error-rows b error o on ∙ settled_by b (some error) o.rows e

  relay_row-rows :
      (b : OutboxMessage) (o : Outbox)
      → (relay_row p b o).1 ≡ true
      → (relay_row p b o).0.rows ≡ map (settle b) o.rows
  unfolding update_message finish
  relay_row-rows b o on = elim (Option-cases (p.publish b.fact)) [
    | inr (error, e) ↦
        let (way, bad, _) = relay_row_refused b o error e in
        ap (λ x. x.0.rows) way ∙ failed-rows b error o bad (ap (λ x. x.1) (sym way) ∙ on)
    | inl e ↦ elim (Option-cases (p.updates b.fact.id)) [
      | inl u ↦
          let (way, good, _) = relay_row_marked b o e u in
          ap (λ x. x.0.rows) way ∙ settled_by b none o.rows good
      | inr (error, u) ↦
          let (way, bad, _) = relay_row_unmarked b o error e u in
          ap (λ x. x.0.rows) way ∙ failed-rows b error (sent b o) bad (ap (λ x. x.1) (sym way) ∙ on)
    ]
  ]

  relay_row-sent :
      (b : OutboxMessage) (o : Outbox)
      → (relay_row p b o).0.sent ≡ o.sent ++ (if accepted p b then b.fact ∷ [] else [])
  relay_row-sent b o = elim (Option-cases (p.publish b.fact)) [
    | inr (error, e) ↦
        let (way, _, refused) = relay_row_refused b o error e in
        ap (λ x. x.0.sent) way ∙ record_error-sent b error o ∙ rw refused (sym (append-nil o.sent))
    | inl e ↦ elim (Option-cases (p.updates b.fact.id)) [
      | inl u ↦
          let (way, _, taken) = relay_row_marked b o e u in ap (λ x. x.0.sent) way ∙ rw taken refl
      | inr (error, u) ↦
          let (way, _, taken) = relay_row_unmarked b o error e u in
          ap (λ x. x.0.sent) way ∙ record_error-sent b error (sent b o) ∙ rw taken refl
    ]
  ]

  -- If the loop goes on to its end, each of its rows went on.
  relay_rows_on :
      (b : OutboxMessage) (bs : List OutboxMessage) (o : Outbox)
      → (relay_rows p (b ∷ bs) o).1 ≡ true
      → ((relay_row p b o).1 ≡ true)
        × (relay_rows p (b ∷ bs) o ≡ relay_rows p bs (relay_row p b o).0)
  unfolding relay_rows
  relay_rows_on b bs o on = elim (Bool-cases (relay_row p b o).1) [
    | inl e ↦ (e, rw e refl)
    | inr e ↦ let off : (relay_rows p (b ∷ bs) o).1 ≡ false = rw e refl in cc
  ]

  pub relay_rows-rows :
      (bs : List OutboxMessage) (o : Outbox)
      → (relay_rows p bs o).1 ≡ true
      → (relay_rows p bs o).0.rows ≡ map (settled bs) o.rows
  unfolding settled
  relay_rows-rows [] o on = relay_rows_nil p o ∙ sym (map-id o.rows)
  relay_rows-rows (b ∷ bs) o on =
      let (first, rest) = relay_rows_on b bs o on in
      ap (λ x. x.0.rows) rest
      ∙ relay_rows-rows bs (relay_row p b o).0 (ap (λ x. x.1) (sym rest) ∙ on)
      ∙ ap (map (settled bs)) (relay_row-rows b o first)
      ∙ map-map (settled bs) (settle b) o.rows

  pub relay_rows-sent :
      (bs : List OutboxMessage) (o : Outbox)
      → (relay_rows p bs o).1 ≡ true
      → (relay_rows p bs o).0.sent ≡ o.sent ++ map (λ b. b.fact) (select (accepted p) bs)
  relay_rows-sent [] o on = relay_rows_nil_sent p o ∙ sym (append-nil o.sent)
  relay_rows-sent (b ∷ bs) o on =
      let (first, rest) = relay_rows_on b bs o on in
      ap (λ x. x.0.sent) rest
      ∙ relay_rows-sent bs (relay_row p b o).0 (ap (λ x. x.1) (sym rest) ∙ on)
      ∙ ap (λ s. s ++ map (λ x. x.fact) (select (accepted p) bs)) (relay_row-sent b o)
      ∙ elim (Bool-cases (accepted p b)) [
        | inl e ↦ rw e (append_assoc o.sent (b.fact ∷ []) _)
        | inr e ↦ rw e (append_assoc o.sent [] _)
      ]

  finish-id : (x : Option String) (r : OutboxMessage) → (finish x r).fact.id ≡ r.fact.id
  unfolding finish mark_published mark_error
  finish-id none r = refl
  finish-id (some error) r = refl

  settle-id : (b r : OutboxMessage) → (settle b r).fact.id ≡ r.fact.id
  unfolding settle
  settle-id b r = elim (Bool-cases (r.fact.id == b.fact.id)) [
    | inl m ↦ rw m (finish-id (error_of p b) r)
    | inr m ↦ rw m refl
  ]

  pub settled-id :
      (bs : List OutboxMessage) (r : OutboxMessage) → (settled bs r).fact.id ≡ r.fact.id
  unfolding settled
  settled-id [] r = refl
  settled-id (b ∷ bs) r = settled-id bs (settle b r) ∙ settle-id b r

  finish_stays :
      (x : Option String) (r : OutboxMessage)
      → is_pending r.status ≡ false
      → is_pending (finish x r).status ≡ false
  unfolding finish mark_published mark_error
  finish_stays none r h = refl
  finish_stays (some error) r h = h

  settle_stays :
      (b r : OutboxMessage) → is_pending r.status ≡ false → is_pending (settle b r).status ≡ false
  unfolding settle
  settle_stays b r h = elim (Bool-cases (r.fact.id == b.fact.id)) [
    | inl m ↦ rw m (finish_stays (error_of p b) r h)
    | inr m ↦ rw m h
  ]

  pub settled_stays :
      (bs : List OutboxMessage) (r : OutboxMessage)
      → is_pending r.status ≡ false
      → is_pending (settled bs r).status ≡ false
  unfolding settled
  settled_stays [] r h = h
  settled_stays (b ∷ bs) r h = settled_stays bs (settle b r) (settle_stays b r h)

  finish_accepted :
      (x : Option String) (r : OutboxMessage)
      → not (is_some x) ≡ true
      → is_pending (finish x r).status ≡ false
  unfolding finish mark_published
  finish_accepted none r a = refl
  finish_accepted (some error) r a = cc

  settle-marked :
      (b r : OutboxMessage)
      → marked p b ≡ true
      → r.fact.id ≡ b.fact.id
      → is_pending (settle b r).status ≡ false
  unfolding settle
  settle-marked b r a same =
      let own : (r.fact.id == b.fact.id) ≡ true =
        subst (λ x. (x == b.fact.id) ≡ true) (sym same) (==_self b.fact.id) in
      rw own (finish_accepted (error_of p b) r a)

  pub settled-marked :
      (bs : List OutboxMessage) (b r : OutboxMessage)
      → Memᴰ b bs
      → marked p b ≡ true
      → r.fact.id ≡ b.fact.id
      → is_pending (settled bs r).status ≡ false
  unfolding settled
  settled-marked [] b r m a same = elim m [ ]
  settled-marked (c ∷ bs) b r (Memᴰ.head e) a same = settled_stays bs (settle c r) (
      settle-marked c r (subst (λ x. marked p x ≡ true) e a)
        (subst (λ x. r.fact.id ≡ x.fact.id) e same))
  settled-marked (c ∷ bs) b r (Memᴰ.tail m) a same =
      settled-marked bs b (settle c r) m a (settle-id c r ∙ same)
