-- ===== src/Events/Log/Retries.antt =====
-- events/repository.py: `create`, and another call of it with the same identifier.
use anytoolai_platform.Prelude.{
  String, Bool, true, false, Option, none, some, List, [], ◌∷◌, ◌++◌, ◌≡◌, refl, ◌∙◌, ◌⊎◌, inl, inr,
}
use anytoolai_platform.Prelude.Table.{select, insert, insert_cases}
use anytoolai_platform.Store.{
  Store, Error, value_error, lookup_error, runtime_error, integrity_error, no_result_found,
  platform_error, Result, ok, err, ◌>>=◌, >>=-eq-ok, require_some,
}
use anytoolai_platform.Events.Models.{EventEnvelope, event_key}
use anytoolai_platform.Events.Log.{
  get, stored_row, insert_event, read_back, require_stored_event, existing_or_raise,
  create_tolerant, create,
}

abbrev pub appended : EventEnvelope → Store → Store
appended e s = record s { events = s.events ++ stored_row e ∷ [] }

insert_event-inv :
    (e : EventEnvelope) (s s' : Store) (u : Unit {0})
    → insert_event e s ≡ ok (u, s')
    → s' ≡ appended e s
unfolding insert_event
insert_event-inv e s s' u h = go (insert event_key (stored_row e) s.events) refl h
  where
    go :
        (o : Option (List EventEnvelope))
        → insert event_key (stored_row e) s.events ≡ o
        → let r : Result (Unit {0} × Store) = elim o [
          | none ↦ err (integrity_error "event_log primary key")
          | some rows ↦ ok (tt, record s { events = rows })
        ] in
          r ≡ ok (u, s') → s' ≡ appended e s
    go none f h = cc
    go (some rows) f h =
        let (_, g) = insert_cases event_key (stored_row e) s.events rows f in
        let same : s' ≡ record s { events = rows } = cc in rw (same, g) refl

require_some-inv :
    {A : Type 0} (o : Option A) (x : Error) (s s' : Store) (a : A)
    → require_some o x s ≡ ok (a, s')
    → (o ≡ some a) × (s' ≡ s)
require_some-inv none x s s' a h = cc
require_some-inv (some b) x s s' a h = (cc, cc)

-- What the read after a write, or after a failed one, returns.
read_back-inv :
    (k : String) (s s' : Store) (x : EventEnvelope)
    → read_back k s ≡ ok (x, s')
    → (select event_key k s.events ≡ some x) × (s' ≡ s)
unfolding read_back get require_stored_event
read_back-inv k s s' x h = require_some-inv (select event_key k s.events) _ s s' x h

existing_or_raise-inv :
    (y : Error) (k : String) (s s' : Store) (x : EventEnvelope)
    → existing_or_raise y k s ≡ ok (x, s')
    → (select event_key k s.events ≡ some x) × (s' ≡ s)
unfolding existing_or_raise get
existing_or_raise-inv y k s s' x h = require_some-inv (select event_key k s.events) y s s' x h

-- The event that is returned stands in the log, which is as before or has one more event.
abbrev pub Stored : EventEnvelope → EventEnvelope → Store → Store → Type 0
Stored e x s s' =
    (select event_key e.event_id s'.events ≡ some x) × ((s' ≡ s) ⊎ (s' ≡ appended e s))

read_after_insert :
    (e : EventEnvelope) (s t s' : Store) (x : EventEnvelope)
    → t ≡ appended e s
    → read_back e.event_id t ≡ ok (x, s')
    → Stored e x s s'
read_after_insert e s t s' x same h =
    let (found, kept) = read_back-inv e.event_id t s' x h in (rw (kept) found, inr (kept ∙ same))

pub create-Stored :
    (allow : Bool) (e : EventEnvelope) (s s' : Store) (x : EventEnvelope)
    → create allow e s ≡ ok (x, s')
    → Stored e x s s'
unfolding create create_tolerant
create-Stored false e s s' x h =
    let (u, t, h₁, h₂) = >>=-eq-ok (insert_event e) _ s h in
    read_after_insert e s t s' x (insert_event-inv e s t u h₁) h₂
create-Stored true e s s' x h = go (insert_event e s) refl h
  where
    go :
        (r : Result (Unit {0} × Store))
        → insert_event e s ≡ r
        → let next : Result (EventEnvelope × Store) = elim r [
          | ok (_, t) ↦ read_back e.event_id t
          | err (integrity_error m) ↦ existing_or_raise (integrity_error m) e.event_id s
          | err y ↦ err y
        ] in
          next ≡ ok (x, s') → Stored e x s s'
    go (ok (u, t)) f h = read_after_insert e s t s' x (insert_event-inv e s t u f) h
    go (err (integrity_error m)) f h =
        let (found, kept) = existing_or_raise-inv (integrity_error m) e.event_id s s' x h in
        (rw (kept) found, inl kept)
    go (err (value_error m)) f h = cc
    go (err (lookup_error m)) f h = cc
    go (err (runtime_error m)) f h = cc
    go (err (no_result_found m)) f h = cc
    go (err (platform_error m)) f h = cc

pub create_again :
    (e x : EventEnvelope) (s : Store)
    → select event_key e.event_id s.events ≡ some x
    → create true e s ≡ ok (x, s)
unfolding create create_tolerant insert_event existing_or_raise get insert
create_again e x s h =
    rw (h, create, create_tolerant, insert_event, insert) (rw (h, existing_or_raise, ◌>>=◌) refl)
