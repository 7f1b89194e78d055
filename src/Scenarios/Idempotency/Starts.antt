-- ===== src/Scenarios/Idempotency/Starts.antt =====
-- Starts with an idempotency key.
use anytoolai_platform.Prelude.{
  String, Bool, true, false, Option, none, some, List, [], ◌∷◌, ◌++◌, ◌≡◌, refl, arith, eq_refl,
  Option-cases, inl, inr, opt_eq,
}
use anytoolai_platform.Prelude.Table.{select, exists, insert, insert_cases}
use anytoolai_platform.Store.{Store, integrity_error, ok, err, >>=-eq-ok, >>=-err}
use anytoolai_platform.Scenarios.Models.{ScenarioSessionRecord, session_id}
use anytoolai_platform.Scenarios.Sessions.{scope_of, require_stored}
use anytoolai_platform.Scenarios.Sessions.Terminal.{Reads-require_stored}
use anytoolai_platform.Scenarios.Idempotency.{
  IdempotencyKey, has_key, constrained_key, key_taken, insert_row, create, pick, oldest,
  get_by_idempotency_key,
}

exists-append :
    {Row : Type 0} (test : Row → Bool) (r : Row) (rows : List Row)
    → test r ≡ true
    → exists test (rows ++ r ∷ []) ≡ true
unfolding exists
exists-append test r [] h = ground arith
exists-append test r (x ∷ rows) h = ground (arith, exists-append test r rows h)

oldest-append :
    (id_before : String → String → Bool) (test : ScenarioSessionRecord → Bool)
    (r : ScenarioSessionRecord) (rows : List ScenarioSessionRecord)
    → exists test rows ≡ false
    → test r ≡ true
    → oldest id_before test (rows ++ r ∷ []) ≡ some r
unfolding oldest exists pick
oldest-append id_before test r [] none_ h = ground arith
oldest-append id_before test r (x ∷ rows) none_ h =
    ground (arith, oldest-append id_before test r rows)

opt_eq_refl : (o : Option String) → opt_eq o o ≡ true
opt_eq_refl none = refl
opt_eq_refl (some a) = eq_refl a

-- A row has the key that it takes.
has_key-constrained_key :
    (r : ScenarioSessionRecord) (c : IdempotencyKey)
    → constrained_key r ≡ some c
    → has_key c r ≡ true
unfolding constrained_key has_key
has_key-constrained_key r c h = elim (Option-cases r.guest_id) [
  | inl n ↦ absurd (ground arith)
  | inr (g, eg) ↦ elim (Option-cases r.idempotency_key) [
    | inl n ↦ absurd (ground arith)
    | inr (k, ek) ↦ ground (
      arith,
      eq_refl r.tenant_id,
      eq_refl r.region,
      eq_refl r.product_id,
      eq_refl r.scenario_id,
      eq_refl g,
      eq_refl k,
    )
  ]
]

taken_by :
    (r : ScenarioSessionRecord) (c : IdempotencyKey) (s : Store) (b : Bool)
    → constrained_key r ≡ some c
    → exists (has_key c) s.sessions ≡ b
    → key_taken r s ≡ b
unfolding key_taken
taken_by r c s b e h = ground arith

free_of :
    (r : ScenarioSessionRecord) (c : IdempotencyKey) (s : Store)
    → constrained_key r ≡ some c
    → key_taken r s ≡ false
    → exists (has_key c) s.sessions ≡ false
unfolding key_taken
free_of r c s e h = ground arith

insert_row_cases :
    (r : ScenarioSessionRecord) (s t : Store) (a : Unit {0})
    → insert_row r s ≡ ok (a, t)
    → (key_taken r s ≡ false) × (insert session_id r s.sessions ≡ some t.sessions)
unfolding insert_row
insert_row_cases r s t a e = elim (Option-cases (insert session_id r s.sessions)) [
  | inl n ↦ absurd (ground arith)
  | inr (rows, y) ↦ (ground arith, ground arith)
]

-- What a creation that commits leaves.
pub created_row :
    (r x : ScenarioSessionRecord) (s t : Store)
    → create r s ≡ ok (x, t)
    → (key_taken r s ≡ false) × (t.sessions ≡ s.sessions ++ r ∷ [])
unfolding create
created_row r x s t e =
    let (a, u, e₁, e₂) = >>=-eq-ok (insert_row r) (λ _. require_stored (scope_of r) r.id) s e in
    let (free, wrote) = insert_row_cases r s u a e₁ in
    let same : t ≡ u = (Reads-require_stored (scope_of r) r.id).at u x t e₂ in
    (free, rw (same, (insert_cases session_id r s.sessions u.sessions wrote).1) refl)

insert_taken :
    (r : ScenarioSessionRecord) (s : Store)
    → select session_id r.id s.sessions ≡ none
    → key_taken r s ≡ true
    → insert_row r s ≡ err (integrity_error "uq_scenario_sessions_idempotency_key")
unfolding insert_row insert
insert_taken r s fresh h = ground (arith, fresh, h)

pub create_taken :
    (r : ScenarioSessionRecord) (s : Store)
    → select session_id r.id s.sessions ≡ none
    → key_taken r s ≡ true
    → create r s ≡ err (integrity_error "uq_scenario_sessions_idempotency_key")
unfolding create
create_taken r s fresh h =
    >>=-err (insert_row r) (λ _. require_stored (scope_of r) r.id) s
      (integrity_error "uq_scenario_sessions_idempotency_key") (insert_taken r s fresh h)

-- What holds of the lookup and of another creation, where the row stands last.
pub started_rows :
    (id_before : String → String → Bool) (r r' : ScenarioSessionRecord) (c : IdempotencyKey)
    (s t : Store)
    → constrained_key r ≡ some c
    → constrained_key r' ≡ some c
    → key_taken r s ≡ false
    → t.sessions ≡ s.sessions ++ r ∷ []
    → select session_id r'.id t.sessions ≡ none
    → (get_by_idempotency_key id_before c t ≡ ok (some r, t))
      × (create r' t ≡ err (integrity_error "uq_scenario_sessions_idempotency_key"))
unfolding get_by_idempotency_key
started_rows id_before r r' c s t key key' free appended fresh =
    let has = has_key-constrained_key r c key in
    (
      rw appended
          (rw (oldest-append id_before (has_key c) r s.sessions (free_of r c s key free) has) refl),
      create_taken r' t fresh
          (taken_by r' c t true key' (rw appended (exists-append (has_key c) r s.sessions has))),
    )

-- After the creation of a session with a guest and an idempotency key, the lookup by that key finds
-- that session, whatever the collation, and the creation of a session with the same key, guest and
-- scope and an identifier that no stored session has raises the integrity error of the unique
-- constraint.
pub started_once :
    (id_before : String → String → Bool) (r r' x : ScenarioSessionRecord) (c : IdempotencyKey)
    (s t : Store)
    → constrained_key r ≡ some c
    → constrained_key r' ≡ some c
    → create r s ≡ ok (x, t)
    → select session_id r'.id t.sessions ≡ none
    → (get_by_idempotency_key id_before c t ≡ ok (some r, t))
      × (create r' t ≡ err (integrity_error "uq_scenario_sessions_idempotency_key"))
started_once id_before r r' x c s t key key' e fresh =
    let (free, appended) = created_row r x s t e in
    started_rows id_before r r' c s t key key' free appended fresh
