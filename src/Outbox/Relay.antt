-- ===== src/Outbox/Relay.antt =====
-- backend/src/jobs/outbox-relay.worker.ts: one pass of the relay. The insights engine is a
-- parameter: it may write to the outbox, and may throw an error with a message. One time stands for the
-- clock at all settlements of a pass.
pub mod Outcome
use capere_ai.Base.{
  ℕ, ◌≡◌, String, Bool, true, false, Option, none, some, List, [], ◌∷◌, ◌++◌, length, leb,
  if◌then◌else◌,
}
use capere_ai.Outbox.{
  Table, Text, DomainEvent, ClaimedDomainEvent, claim_batch, mark_consumed, mark_failed,
}
use capere_ai.Outbox.Bus.{Registry, emit}

abbrev pub Insights : Type 0
Insights = DomainEvent → Table → Table × Option Text

-- The message of the error that `markConsumed` throws.
abbrev pub Lost : Type 0
Lost = ℕ → Text

unfoldable pub batch_size : ℕ
batch_size = 50

-- The handler of `catch`. `none`: `markFailed` throws, and the pass ends.
abbrev pub give_back : ClaimedDomainEvent → Text → Table → Option Table
give_back c error rows = mark_failed c.event.id c.claim_token error rows

module _ (lost : Lost) (bus : Registry) (insights : Insights) (now : ℕ) where
  abbrev pub finish : ClaimedDomainEvent → Table × Option Text → Option Table
  finish c (rows, some error) = give_back c error rows
  finish c (rows, none) = elim (mark_consumed now c.event.id c.claim_token rows) [
    | some rows' ↦ some rows'
    | none ↦ give_back c (lost c.event.id) rows
  ]

  -- The loop: subscribers, insights, then the settlement. It gives the table, whether the loop ran
  -- to its end, and what the bus logged.
  unfoldable pub deliver_all : List ClaimedDomainEvent → Table → Table × Bool × List (String × Text)
  deliver_all [] rows = (rows, true, [])
  deliver_all (c ∷ cs) rows =
      let log = emit bus c.event in
      let written = insights c.event rows in
      elim (finish c written) [
        | none ↦ (written.0, false, log)
        | some rows' ↦ let rest = deliver_all cs rows' in (rest.0, rest.1, log ++ rest.2)
      ]

  -- A settlement that succeeds goes on with the rest.
  pub deliver_all-settled :
      (c : ClaimedDomainEvent) (cs : List ClaimedDomainEvent) (rows rows' : Table)
      → finish c (insights c.event rows) ≡ some rows'
      → ((deliver_all (c ∷ cs) rows).0 ≡ (deliver_all cs rows').0)
        × ((deliver_all (c ∷ cs) rows).1 ≡ (deliver_all cs rows').1)
  unfolding deliver_all
  deliver_all-settled c cs rows rows' h = (rw (h, deliver_all), rw (h, deliver_all))

  -- The number of events, or `none` where the pass throws.
  unfoldable pub tick : (ℕ → Bool) → ℕ → ℕ → Table → Table × Option ℕ
  unfolding deliver_all batch_size
  tick locked token claimed_at rows =
      let claimed = claim_batch locked token claimed_at batch_size rows in
      let pass = deliver_all claimed.1 claimed.0 in
      (pass.0, if pass.1 then some (length claimed.1) else none)

-- How long the loop waits after a pass.
unfoldable pub next_delay : ℕ → ℕ
unfolding batch_size
next_delay processed = if leb batch_size processed then 50 else 2000
