-- ===== src/Outbox/Tests.antt =====
-- Runs of the outbox and its relay on a small table.
use capere_ai.Base.{
  ℕ, ◌+◌, String, ◌≡◌, ◌≢◌, refl, inl, Bool, false, Option, none, some, List, [], ◌∷◌, ◌++◌, map,
  arith, elem, All, length, Distinct, if◌then◌else◌, str_eq,
}
use capere_ai.Outbox.{
  EventToPublish, Table, Text, DomainEvent, is_claimable, to_event, ids, claim_rows, claim_batch,
  mark_consumed, mark_failed, publish_in_transaction, stats, dead_lettered,
}
use capere_ai.Outbox.Ownership.{claimed_ids}
use capere_ai.Outbox.Exclusive.{IsOfOther, claim_batch_exclusive}
use capere_ai.Outbox.Invariant.{
  Op, publish, claims, consumed, failed, run, step, ClosedAt, closed_never_claimed,
}
use capere_ai.Outbox.Attempts.{Inv, run-Inv}
use capere_ai.Outbox.Bus.{EventSubscriber, handlers_of, subscribe, emit}
use capere_ai.Outbox.Relay.{Insights, batch_size, tick}
use capere_ai.Outbox.Relay.Outcome.{settle_row, written_by, tick_quiet}

abbrev event : String → EventToPublish
event kind = record {
  event_type = kind;
  organization_id = 1;
  aggregate_type = none;
  aggregate_id = none;
  payload_version = none;
  payload = "{}";
}

-- Events 7, 8 and 9; 8 is the oldest.
abbrev history : List Op
history = publish 7 20 (event "a") ∷ publish 8 10 (event "b") ∷ publish 9 30 (event "a") ∷ []

abbrev three : Table
three = run [] history

abbrev unlocked : ℕ → Bool
unlocked i = false

outbox : Unit {0}
unfolding run step publish_in_transaction claim_batch claim_rows is_claimable mark_consumed
    mark_failed stats dead_lettered tick batch_size emit subscribe handlers_of
outbox = tt

-- The two oldest are claimed; five minutes later they can be claimed again.
claim_test :
    (claimed_ids (claim_batch unlocked 1 100 2 three).1 ≡ 8 ∷ 7 ∷ [])
    × (claimed_ids (claim_batch unlocked 2 101 5 (claim_batch unlocked 1 100 2 three).0).1 ≡ 9 ∷ [])
    × (claimed_ids (claim_batch unlocked 2 300101 5 (claim_batch unlocked 1 100 2 three).0).1
        ≡ 8 ∷ 7 ∷ 9 ∷ [])
unfolding outbox to_event
claim_test = (refl, refl, refl)

stats_test : stats (run three (claims unlocked 1 100 2 ∷ consumed 120 8 1 ∷ [])) ≡ (2, 0)
unfolding outbox
stats_test = refl

-- Meanwhile another relay claims event 9 and fails to deliver it.
abbrev meanwhile : List Op
meanwhile = publish 10 40 (event "b") ∷ claims unlocked 2 150 5 ∷ failed 9 2 [] ∷ []

meanwhile-IsOfOther :
    All (IsOfOther (claimed_ids (claim_batch unlocked 1 100 2 three).1) 1 100) meanwhile
unfolding outbox to_event
meanwhile-IsOfOther = (refl, (omega arith, ((λ e. cc), tt)))

claim_batch_exclusive_example :
    All
      (λ c. elem c.event.id (claimed_ids (claim_batch unlocked 1 100 2 three).1) ≡ false)
      (claim_batch unlocked 3 200 5 (run (claim_batch unlocked 1 100 2 three).0 meanwhile)).1
claim_batch_exclusive_example =
    claim_batch_exclusive unlocked unlocked 1 3 100 200 2 5 three meanwhile meanwhile-IsOfOther
      (omega arith)

abbrev later : List Op
later = claims unlocked 1 100 2 ∷ consumed 120 8 1 ∷ failed 7 1 [] ∷ []

run-Inv_example : Inv (run [] (history ++ later))
unfolding run step publish_in_transaction
run-Inv_example =
    run-Inv [] (history ++ later) (refl, (refl, (refl, (tt, (tt, (tt, tt))))))
      (record { distinct = tt; sound = tt })

-- Event 8 is consumed, so it is in no later batch.
abbrev after_delivery : Table
after_delivery = run three (claims unlocked 1 100 2 ∷ consumed 120 8 1 ∷ [])

after_delivery-ClosedAt : All (ClosedAt 8) after_delivery
unfolding outbox
after_delivery-ClosedAt =
    ((λ e. cc), ((λ e. record { free = refl; done = inl refl }), ((λ e. cc), tt)))

closed_never_claimed_example :
    All (λ c. c.event.id ≢ 8) (claim_batch unlocked 3 400000 5 (run after_delivery later)).1
closed_never_claimed_example =
    closed_never_claimed 8 after_delivery later unlocked 3 400000 5 (tt, (tt, (tt, tt)))
      after_delivery-ClosedAt

-- Insights fail on events of type "a".
abbrev outcome : DomainEvent → Option Text
outcome e = if str_eq e.event_type "a" then some (1 ∷ []) else none

abbrev insights : Insights
insights e rows = (rows, outcome e)

tick_test : (tick (λ i. []) [] insights 150 unlocked 1 100 three).1 ≡ some 3
unfolding outbox to_event
tick_test = refl

three-Distinct : Distinct (ids three)
unfolding outbox
three-Distinct = (refl, (refl, (refl, tt)))

-- Each run publishes one insight.
abbrev written : DomainEvent → Table
written e = publish_in_transaction (e.id + 100) 140 (event "insight.generated") []

abbrev adding : Insights
adding e rows = (rows ++ written e, outcome e)

written-unclaimed : (e : DomainEvent) → All (λ r. r.claim_token ≡ none) (written e)
unfolding publish_in_transaction
written-unclaimed e = (refl, tt)

tick_quiet_example :
    let result = tick (λ i. []) [] adding 150 unlocked 1 100 three in
    let claimed = (claim_batch unlocked 1 100 batch_size three).1 in
    (result.0
      ≡ map
          (settle_row
            (λ i. [])
            []
            adding
            outcome
            written
            (λ e rows. refl)
            written-unclaimed
            150
            1
            (claimed_ids claimed))
          three
        ++ written_by written claimed)
    × (result.1 ≡ some (length claimed))
tick_quiet_example =
    tick_quiet (λ i. []) [] adding outcome written (λ e rows. refl) written-unclaimed 150 1 unlocked
      100 three three-Distinct

abbrev subscriber : EventSubscriber
subscriber = record { name = "cache"; event_type = "a"; handle = λ e. some (2 ∷ []) }

abbrev to_event_of_type : String → DomainEvent
to_event_of_type kind = record {
  id = 1;
  event_type = kind;
  organization_id = 1;
  payload = "{}";
  payload_version = 1;
  aggregate_type = none;
  aggregate_id = none;
  occurred_at = 0;
}
