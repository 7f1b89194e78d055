-- ===== src/Scenarios/Service/Started.antt =====
-- scenarios/service.py: `start_or_get_existing`, and another call of it with the same key.
use anytoolai_platform.Prelude.{
  ℕ, String, ◌==◌, Bool, true, false, Option, none, some, List, [], ◌∷◌, ◌++◌, ◌≡◌, ◌≢◌, refl, sym,
  ap, ◌∙◌, if◌then◌else◌,
}
use mathlib.Core.Path.{subst}
use anytoolai_platform.Prelude.Table.{select}
use anytoolai_platform.Store.{
  Store, value_error, lookup_error, runtime_error, no_result_found, platform_error, integrity_error,
  Result, ok, err, Tx, ◌>>◌, >>=-ok, >>=-eq-ok, pure,
}
use anytoolai_platform.Events.Models.{ExecutionContext}
use anytoolai_platform.Events.Emitter.{Emission, emit}
use anytoolai_platform.Events.Emitter.Stored.{KeepsRest, emit-KeepsRest}
use anytoolai_platform.Scenarios.Models.{ScenarioSessionRecord, session_id}
use anytoolai_platform.Scenarios.Idempotency.{
  IdempotencyKey, constrained_key, key_taken, create, get_by_idempotency_key,
}
use anytoolai_platform.Scenarios.Idempotency.Starts.{created_row, started_rows}
use anytoolai_platform.Scenarios.Service.{
  Minted, emit_event, event, scenario_properties, event_context_from_record, emit_started,
  existing_row, raced, start_keyed, start_or_get_existing,
}

constrained_parts :
    (r : ScenarioSessionRecord) (c : IdempotencyKey)
    → constrained_key r ≡ some c
    → (k : String) × (r.idempotency_key ≡ some k)
      × (record {
        tenant_id = r.tenant_id;
        region = r.region;
        product_id = r.product_id;
        scenario_id = r.scenario_id;
        guest_id = r.guest_id;
        idempotency_key = k;
      }
          ≡ c)
unfolding constrained_key
constrained_parts r c h = go r.guest_id r.idempotency_key h
  where
    go :
        (o key : Option String)
        → let taken : Option IdempotencyKey = elim o [
          | none ↦ none
          | some g ↦ elim key [
            | none ↦ none
            | some k ↦ some (record {
              tenant_id = r.tenant_id;
              region = r.region;
              product_id = r.product_id;
              scenario_id = r.scenario_id;
              guest_id = some g;
              idempotency_key = k;
            })
          ]
        ] in
          taken ≡ some c
          → (k : String) × (key ≡ some k)
            × (record {
              tenant_id = r.tenant_id;
              region = r.region;
              product_id = r.product_id;
              scenario_id = r.scenario_id;
              guest_id = o;
              idempotency_key = k;
            }
                ≡ c)
    go none key h = cc
    go (some g) none h = cc
    go (some g) (some k) h = (k, refl, cc)

existing_not_inserted :
    (found : Option ScenarioSessionRecord) (x : ScenarioSessionRecord) (u t : Store)
    → existing_row found u ≢ ok ((x, true), t)
unfolding existing_row
existing_not_inserted none x u t h = cc
existing_not_inserted (some row) x u t h = cc

module _ (sha256_hex : String → String) (casefold : String → String)
    (platform_events : List String) where
  pub emit_event-KeepsRest :
      (m : Minted) (n : ℕ) (a : Emission) (c : ExecutionContext) (s s' : Store) {u : Unit {0}}
      → emit_event sha256_hex casefold platform_events m n a c s ≡ ok (u, s')
      → KeepsRest s s'
  unfolding emit_event
  emit_event-KeepsRest m n a c s s' h =
      let (x, t, e, f) =
        >>=-eq-ok (emit sha256_hex casefold platform_events a c (m.clock n) (m.event_ids n)) _ s
          h in
      let same : t ≡ s' = cc in
      subst (KeepsRest s) same
        (emit-KeepsRest sha256_hex casefold platform_events a c (m.clock n) (m.event_ids n) s t x e)

  -- The columns of the unique constraint, where the row has a guest and a key.
  constrained_start :
      (id_before : String → String → Bool) (m : Minted) (r : ScenarioSessionRecord)
      (context : Option ExecutionContext) (c : IdempotencyKey)
      → constrained_key r ≡ some c
      → start_or_get_existing sha256_hex casefold platform_events id_before m r context
        ≡ start_keyed sha256_hex casefold platform_events id_before m r context c
  unfolding start_or_get_existing constrained_key
  constrained_start id_before m r context c h =
      let (k, e, f) = constrained_parts r c h in rw (e, sym f) refl

  raced_found :
      (id_before : String → String → Bool) (c : IdempotencyKey) (r : ScenarioSessionRecord)
      (t : Store)
      → get_by_idempotency_key id_before c t ≡ ok (some r, t)
      → raced sha256_hex casefold platform_events id_before c t ≡ ok ((r, false), t)
  unfolding raced existing_row
  raced_found id_before c r t found =
      >>=-ok (get_by_idempotency_key id_before c) existing_row t t (some r) found

  raced_not_inserted :
      (id_before : String → String → Bool) (c : IdempotencyKey) (x : ScenarioSessionRecord)
      (s t : Store)
      → raced sha256_hex casefold platform_events id_before c s ≢ ok ((x, true), t)
  unfolding raced existing_row
  raced_not_inserted id_before c x s t h =
      let (found, u, _, h₁) = >>=-eq-ok (get_by_idempotency_key id_before c) existing_row s h in
      existing_not_inserted found x u t h₁

  -- A call that inserted its row left it last.
  won_row :
      (id_before : String → String → Bool) (m : Minted) (r x : ScenarioSessionRecord)
      (context : Option ExecutionContext) (c : IdempotencyKey) (s t : Store)
      → start_keyed sha256_hex casefold platform_events id_before m r context c s
        ≡ ok ((x, true), t)
      → (key_taken r s ≡ false) × (t.sessions ≡ s.sessions ++ r ∷ [])
  unfolding start_keyed emit_started
  won_row id_before m r x context c s t h = go (create r s) refl h
    where
      returned : ScenarioSessionRecord → Tx (ScenarioSessionRecord × Bool)
      returned stored = pure (stored, true)

      returned_same :
          (stored : ScenarioSessionRecord) (w : Store)
          → returned stored w ≡ ok ((x, true), t)
          → w ≡ t
      returned_same stored w f = cc

      emitted :
          (stored : ScenarioSessionRecord) (u : Store)
          → (emit_started sha256_hex casefold platform_events m stored context >> returned stored) u
            ≡ ok ((x, true), t)
          → KeepsRest u t
      emitted stored u h =
          let (_, w, e, f) =
            >>=-eq-ok (emit_started sha256_hex casefold platform_events m stored context) _ u h in
          let same : w ≡ t = returned_same stored w f in
          subst (KeepsRest u) same (
            emit_event-KeepsRest m 0 (event "scenario.started" none (scenario_properties stored))
              (event_context_from_record stored context) u w e)

      never_raced :
          (b : Bool) (constraint : String)
          → (if b
              then raced sha256_hex casefold platform_events id_before c s
              else err (integrity_error constraint))
            ≢ ok ((x, true), t)
      never_raced true constraint h = raced_not_inserted id_before c x s t h
      never_raced false constraint h = cc

      go :
          (o : Result (ScenarioSessionRecord × Store))
          → create r s ≡ o
          → let next : Result ((ScenarioSessionRecord × Bool) × Store) = elim o [
            | ok (stored, s') ↦
                (emit_started sha256_hex casefold platform_events m stored context
                    >> pure (stored, true))
                  s'
            | err (integrity_error constraint) ↦
                if constraint == "uq_scenario_sessions_idempotency_key"
                then raced sha256_hex casefold platform_events id_before c s
                else err (integrity_error constraint)
            | err e ↦ err e
          ] in
            next ≡ ok ((x, true), t) → (key_taken r s ≡ false) × (t.sessions ≡ s.sessions ++ r ∷ [])
      go (ok (stored, u)) e h =
          let (free, appended) = created_row r stored s u e in
          let (es, kept) = emitted stored u h in (free, ap (λ y. y.sessions) kept ∙ appended)
      go (err (integrity_error constraint)) e h =
          absurd (never_raced (constraint == "uq_scenario_sessions_idempotency_key") constraint h)
      go (err (value_error y)) e h = cc
      go (err (lookup_error y)) e h = cc
      go (err (runtime_error y)) e h = cc
      go (err (no_result_found y)) e h = cc
      go (err (platform_error y)) e h = cc

  -- After a call of start_or_get_existing that inserted a session with a guest and an idempotency
  -- key, another call with the same key, guest and scope and an identifier that no stored session
  -- has, with any context, instants and collation of identifiers, returns the stored session and
  -- that it inserted none, and writes nothing, not even an event.
  pub start_again :
      (id_before : String → String → Bool) (m m' : Minted) (r r' x : ScenarioSessionRecord)
      (context context' : Option ExecutionContext) (c : IdempotencyKey) (s t : Store)
      → constrained_key r ≡ some c
      → constrained_key r' ≡ some c
      → start_or_get_existing sha256_hex casefold platform_events id_before m r context s
        ≡ ok ((x, true), t)
      → select session_id r'.id t.sessions ≡ none
      → start_or_get_existing sha256_hex casefold platform_events id_before m' r' context' t
        ≡ ok ((r, false), t)
  unfolding start_keyed
  start_again id_before m m' r r' x context context' c s t key key' h fresh =
      let e : start_keyed sha256_hex casefold platform_events id_before m r context c s
          ≡ ok ((x, true), t) =
        sym (ap (λ f. f s) (constrained_start id_before m r context c key)) ∙ h in
      let (free, appended) = won_row id_before m r x context c s t e in
      let (found, refused) = started_rows id_before r r' c s t key key' free appended fresh in
      ap (λ f. f t) (constrained_start id_before m' r' context' c key')
      ∙ rw (refused, start_keyed) (raced_found id_before c r t found)
