-- ===== src/Events/Relay.antt =====
-- What a poll of the outbox publisher, packages/events/src/outbox-publisher.ts, sends and leaves.
use audio_book.Base.{
  Bool, true, false, ◌&&◌, none, some, List, [], ◌∷◌, ◌≡◌, ◌⊎◌, refl, ap, select, length, All, inl,
  inr, Bool-cases,
}
use audio_book.Events.{
  OutboxMessage, is_pending, Poller, claim_pending, Outbox, relay_rows, relay_once,
}
use audio_book.Events.Settle.{marked}

and_left : (a b : Bool) → (a && b) ≡ true → a ≡ true
and_left true b e = refl
and_left false b e = e

-- What holds of every row of the table holds of those that a poller claims, and they are PENDING.
module _ {κ} (P : OutboxMessage → Type κ) where
  pub All-wanted :
      (q : OutboxMessage → Bool) (rs : List OutboxMessage)
      → All (λ r. q r ≡ true → P r) rs
      → All P (select q rs)
  All-wanted q [] h = tt
  All-wanted q (r ∷ rs) (p, h) = elim (Bool-cases (q r)) [
    | inl e ↦ rw e (p e, All-wanted q rs h)
    | inr e ↦ rw e (All-wanted q rs h)
  ]

-- No row with the id of one that was marked is PENDING.
abbrev Done : Poller → List OutboxMessage → OutboxMessage → Type 0
Done p batch r =
    All (λ b. marked p b ≡ true → r.fact.id ≡ b.fact.id → is_pending r.status ≡ false) batch

-- The polls that follow one another.
unfoldable pub relay_all : List Poller → Outbox → Outbox
relay_all [] o = o
relay_all (q ∷ qs) o = relay_all qs (relay_once q o).0

relay_once_cases :
    (q : Poller) (o : Outbox)
    → (((relay_rows q (claim_pending q o.rows) o).1 ≡ true)
        × (relay_once q o ≡ (
          (relay_rows q (claim_pending q o.rows) o).0,
          some (length (claim_pending q o.rows)),
        )))
      ⊎ (((relay_once q o).0.rows ≡ o.rows) × ((relay_once q o).1 ≡ none))
unfolding relay_once
relay_once_cases q o =
    elim (Bool-cases ((relay_rows q (claim_pending q o.rows) o).1 && q.commits)) [
      | inl e ↦ inl (and_left _ q.commits e, rw e refl)
      | inr e ↦ inr (rw e refl, rw e refl)
    ]

-- A poll that throws, at a statement or at its commit, leaves every row as it was, the rows that it
-- sent before included, so that they are claimed again.
relay_once_again :
    (p q : Poller) (o : Outbox)
    → (relay_once p o).1 ≡ none
    → claim_pending q (relay_once p o).0.rows ≡ claim_pending q o.rows
relay_once_again p q o threw = elim (relay_once_cases p o) [
  | inl (_, returned) ↦ cc (ap (λ x. x.1) returned, threw)
  | inr (same, _) ↦ ap (claim_pending q) same
]
