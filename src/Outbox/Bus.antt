-- ===== src/Outbox/Bus.antt =====
-- backend/src/shared/events/in-process-bus.ts: subscribers by event type. A handler's failure is
-- logged and goes no further.
use capere_ai.Base.{
  ◌≡◌, refl, String, Option, none, some, List, [], ◌∷◌, ◌++◌, map, arith, if◌then◌else◌, str_eq,
  eq_iff,
}
use capere_ai.Outbox.{DomainEvent, Text}

-- `handle` gives the message of the error that it throws, if it throws.
pub record EventSubscriber : Type 0 where
  pub name : String
  pub event_type : String
  pub handle : DomainEvent → Option Text

-- The map from event types to subscribers, in order of insertion.
abbrev pub Registry : Type 0
Registry = List (String × List EventSubscriber)

unfoldable pub handlers_of : String → Registry → List EventSubscriber
handlers_of key [] = []
handlers_of key ((k, hs) ∷ m) = if str_eq k key then hs else handlers_of key m

-- `get`, then `push`, then `set`.
unfoldable pub subscribe : EventSubscriber → Registry → Registry
subscribe s [] = (s.event_type, s ∷ []) ∷ []
subscribe s ((k, hs) ∷ m) =
    if str_eq k s.event_type then (k, hs ++ s ∷ []) ∷ m else (k, hs) ∷ subscribe s m

-- The error log of the handlers' run: who failed, and how.
deliver : DomainEvent → List EventSubscriber → List (String × Text)
deliver event [] = []
deliver event (s ∷ hs) = elim (s.handle event) [
  | none ↦ deliver event hs
  | some error ↦ (s.name, error) ∷ deliver event hs
]

-- `emit` returns normally in any case; what it leaves is the log.
unfoldable pub emit : Registry → DomainEvent → List (String × Text)
unfolding handlers_of deliver
emit m event = deliver event (handlers_of event.event_type m)

pub registrations : Registry → List (String × List String)
registrations = map (λ (k, hs). (k, map (λ s. s.name) hs))

-- Subscribing adds the subscriber behind those of its event type and changes no other type's.
pub handlers_of-subscribe :
    (s : EventSubscriber) (key : String) (m : Registry)
    → handlers_of key (subscribe s m)
      ≡ (if str_eq s.event_type key then handlers_of key m ++ s ∷ [] else handlers_of key m)
unfolding handlers_of subscribe
handlers_of-subscribe s key [] = ground (arith, eq_iff s.event_type key)
handlers_of-subscribe s key ((k, hs) ∷ m) = ground (
  arith,
  eq_iff k s.event_type,
  eq_iff k key,
  eq_iff s.event_type key,
  handlers_of-subscribe s key m,
)

deliver-append :
    (event : DomainEvent) (hs ks : List EventSubscriber)
    → deliver event (hs ++ ks) ≡ deliver event hs ++ deliver event ks
unfolding deliver
deliver-append event [] ks = refl
deliver-append event (s ∷ hs) ks = ground (arith, deliver-append event hs ks)

-- A new subscriber changes what an event logs by its own failure alone: the handlers before it run
-- as before, and an event of another type is untouched.
pub emit-subscribe :
    (s : EventSubscriber) (m : Registry) (event : DomainEvent)
    → emit (subscribe s m) event ≡ (
        if str_eq s.event_type event.event_type
        then emit m event ++ emit ((s.event_type, s ∷ []) ∷ []) event
        else emit m event)
unfolding emit handlers_of
emit-subscribe s m event =
    rw (handlers_of-subscribe s event.event_type m)
      (ground (arith, deliver-append event (handlers_of event.event_type m) (s ∷ [])))
