-- ===== src/Events/Emitter/Stored.antt =====
-- events/emitter.py: what `emit` stores, and another call of it with a client's identifier.
use anytoolai_platform.Prelude.{
  ℕ, String, true, ◌||◌, Option, some, List, [], ◌∷◌, ◌++◌, ◌≡◌, refl, sym, ◌⊎◌, inl, inr, is_some,
  or_true,
}
use anytoolai_platform.Prelude.Table.{select}
use anytoolai_platform.Prelude.Texts.{strip, is_blank}
use anytoolai_platform.Json.{object}
use anytoolai_platform.Store.{Store, ok, after, refuse_if}
use anytoolai_platform.Events.Models.{EventEnvelope, ExecutionContext, event_key}
use anytoolai_platform.Events.Sanitizer.{sanitize_event_properties}
use anytoolai_platform.Events.Sanitizer.Bounded.{bounded}
use anytoolai_platform.Events.Sanitizer.Bounds.{properties_bounded}
use anytoolai_platform.Events.Sanitizer.Clean.{fields_clean, properties_clean}
use anytoolai_platform.Prelude.Rows.{Each, Each-append}
use anytoolai_platform.Store.Commits.{after-Commits}
use anytoolai_platform.Events.Log.{create, stored_row}
use anytoolai_platform.Events.Log.Retries.{appended, create-Stored, create_again}
use anytoolai_platform.Events.Emitter.Checks.{
  OkOrRefused, OkOrRefused-bind, OkOrRefused-refuse_if, OkOrRefused-validate_event_type,
  OkOrRefused-client_event_id, stripped, after_check,
}
use anytoolai_platform.Events.Emitter.{
  Emission, validate_event_type, require_dimension, client_event_id, or_no_properties,
  resolved_event_id, envelope_of, emit,
}

-- The second store differs from the first at most in its log.
abbrev pub KeepsRest : Store → Store → Type 0
KeepsRest s s' = (es : List EventEnvelope) × (s' ≡ record s { events = es })

module _ (casefold : String → String) where
  -- Every event of the log is bounded, and clean under sensitive keys.
  abbrev pub IsSafe : EventEnvelope → Type 0
  IsSafe e = (fields_clean casefold e.properties ≡ true) × (bounded 8 (object e.properties) ≡ true)

  abbrev pub LogIsSafe : Store → Type 0
  LogIsSafe s = Each event_key IsSafe s.events

module _ (sha256_hex : String → String) (casefold : String → String)
    (platform_events : List String) where
  -- The event that a call stores, if it stores one.
  abbrev written : Emission → ExecutionContext → ℕ → String → EventEnvelope
  written a c now fresh_id =
      let sanitized = sanitize_event_properties casefold (or_no_properties a.properties) in
      envelope_of a c sanitized
        (resolved_event_id sha256_hex a c sanitized (stripped a.event_id) fresh_id) now

  emit-create :
      (a : Emission) (c : ExecutionContext) (now : ℕ) (fresh_id : String) (s s' : Store)
      (x : EventEnvelope)
      → emit sha256_hex casefold platform_events a c now fresh_id s ≡ ok (x, s')
      → create (a.replay || is_some (stripped a.event_id)) (written a c now fresh_id) s ≡ ok (x, s')
  unfolding emit require_dimension
  emit-create a c now fresh_id s s' x h =
      let h₁ =
        after_check (validate_event_type platform_events a.event_type) _ s tt (x, s')
          (OkOrRefused-validate_event_type platform_events a.event_type s) h in
      let h₂ =
        after_check (refuse_if (is_blank c.tenant_id) _) _ s tt (x, s')
          (OkOrRefused-refuse_if (is_blank c.tenant_id)
            "missing required event dimension: tenant_id" s)
          h₁ in
      let h₃ =
        after_check (refuse_if (is_blank c.region) _) _ s tt (x, s')
          (OkOrRefused-refuse_if (is_blank c.region) "missing required event dimension: region" s)
          h₂ in
      after_check (client_event_id a.replay a.event_id) _ s (stripped a.event_id) (x, s')
        (OkOrRefused-client_event_id a.replay a.event_id s) h₃

  -- If every event of the log is safe, then it still is after a call of emit with any arguments,
  -- committed or rolled back. Safe is an event whose properties nest to 8 levels at most with at
  -- most 51 entries each and texts of at most 1024 characters, and have under each sensitive key,
  -- at every depth, only the redaction mark or a finite number that counts tokens. The case folding
  -- is assumed to leave _truncated_items as it is.
  pub emit-LogIsSafe :
      (plain : casefold "_truncated_items" ≡ "_truncated_items") (a : Emission)
      (c : ExecutionContext) (now : ℕ) (fresh_id : String) (s : Store)
      → LogIsSafe casefold s
      → LogIsSafe casefold (after (emit sha256_hex casefold platform_events a c now fresh_id s) s)
  unfolding stored_row envelope_of
  emit-LogIsSafe plain a c now fresh_id s safe =
      after-Commits (LogIsSafe casefold) (emit sha256_hex casefold platform_events a c now fresh_id)
        s safe
        (record {
          at = λ x s' h.
              let (_, kept) = create-Stored _ _ s s' x (emit-create a c now fresh_id s s' x h) in
              safe_after s' kept;
        })
    where
      new_is_safe : IsSafe casefold (stored_row (written a c now fresh_id))
      new_is_safe = (properties_clean casefold plain _, properties_bounded casefold _)

      safe_after :
          (s' : Store)
          → (s' ≡ s) ⊎ (s' ≡ appended (written a c now fresh_id) s)
          → LogIsSafe casefold s'
      safe_after s' (inl e) = rw (e) safe
      safe_after s' (inr e) =
          rw (e) (Each-append event_key (IsSafe casefold) _ s.events new_is_safe safe)

  written_id :
      (a : Emission) (c : ExecutionContext) (now : ℕ) (fresh_id k : String)
      → a.event_id ≡ some k
      → (written a c now fresh_id).event_id ≡ strip k
  unfolding envelope_of resolved_event_id stripped
  written_id a c now fresh_id k i = rw (i) refl

  given_is_some : (o : Option String) (k : String) → o ≡ some k → is_some (stripped o) ≡ true
  unfolding stripped
  given_is_some o k i = rw (i) refl

  -- A call whose event is stored already.
  emit-retried :
      (a : Emission) (c : ExecutionContext) (now : ℕ) (fresh_id : String) (s : Store)
      (x : EventEnvelope)
      → (a.replay || is_some (stripped a.event_id)) ≡ true
      → select event_key (written a c now fresh_id).event_id s.events ≡ some x
      → OkOrRefused (emit sha256_hex casefold platform_events a c now fresh_id) s x
  unfolding emit require_dimension
  emit-retried a c now fresh_id s x t found =
      OkOrRefused-bind (validate_event_type platform_events a.event_type) _ s tt x
        (OkOrRefused-validate_event_type platform_events a.event_type s)
        (OkOrRefused-bind (refuse_if (is_blank c.tenant_id) _) _ s tt x
          (OkOrRefused-refuse_if (is_blank c.tenant_id)
            "missing required event dimension: tenant_id" s)
          (OkOrRefused-bind (refuse_if (is_blank c.region) _) _ s tt x
            (OkOrRefused-refuse_if (is_blank c.region) "missing required event dimension: region" s)
            (OkOrRefused-bind (client_event_id a.replay a.event_id) _ s (stripped a.event_id) x
              (OkOrRefused-client_event_id a.replay a.event_id s)
              (inl (rw (t) (create_again (written a c now fresh_id) x s found))))))

  -- After a call of emit with a client's event identifier that returned, any other call with the
  -- same identifier, apart from surrounding space, returns the stored event and writes nothing, or
  -- refuses its arguments with a validation error.
  pub emit_once :
      (a a' : Emission) (c c' : ExecutionContext) (now now' : ℕ) (fresh_id fresh_id' k k' : String)
      (s s' : Store) (x : EventEnvelope)
      → a.event_id ≡ some k
      → a'.event_id ≡ some k'
      → strip k ≡ strip k'
      → emit sha256_hex casefold platform_events a c now fresh_id s ≡ ok (x, s')
      → OkOrRefused (emit sha256_hex casefold platform_events a' c' now' fresh_id') s' x
  emit_once a a' c c' now now' fresh_id fresh_id' k k' s s' x i i' same h =
      let (found, _) = create-Stored _ _ s s' x (emit-create a c now fresh_id s s' x h) in
      let id = written_id a c now fresh_id k i in
      let id' = written_id a' c' now' fresh_id' k' i' in
      emit-retried a' c' now' fresh_id' s' x (or_true a'.replay (given_is_some a'.event_id k' i'))
        (rw (id', sym same, sym id) found)

  -- A call that returns changes no table but the log.
  pub emit-KeepsRest :
      (a : Emission) (c : ExecutionContext) (now : ℕ) (fresh_id : String) (s s' : Store)
      (x : EventEnvelope)
      → emit sha256_hex casefold platform_events a c now fresh_id s ≡ ok (x, s')
      → KeepsRest s s'
  emit-KeepsRest a c now fresh_id s s' x h =
      let (_, kept) = create-Stored _ _ s s' x (emit-create a c now fresh_id s s' x h) in go kept
    where
      go : (s' ≡ s) ⊎ (s' ≡ appended (written a c now fresh_id) s) → KeepsRest s s'
      go (inl e) = (s.events, e)
      go (inr e) = (s.events ++ stored_row (written a c now fresh_id) ∷ [], e)
