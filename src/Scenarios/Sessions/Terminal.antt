-- ===== src/Scenarios/Sessions/Terminal.antt =====
-- The status of the scenario sessions that have ended.
use mathlib.Core.Path.{subst}
use anytoolai_platform.Prelude.{
  String, ◌≡◌, refl, ◌⊎◌, inl, inr, Bool, true, false, not, some, arith, Option-cases,
}
use anytoolai_platform.Prelude.Table.{
  select, update_where, Related, Related-refl, update_where-Related_at,
}
use anytoolai_platform.Store.{after, Store, ok, lookup_error, runtime_error, require_some}
use anytoolai_platform.Store.Commits.{
  Commits-Reads, Commits-step, Commits-require_some, Commits-refuse_if, Commits-last,
  Ensures-Commits,
}
use anytoolai_platform.Store.Ensures.{
  after-Ensures, Ensures, Reads, Ensures-read_then, Reads-pure, Reads-require_some,
}
use anytoolai_platform.Scenarios.Models.{ScenarioSessionRecord, session_id}
use anytoolai_platform.Scenarios.Sessions.{
  SessionScope, in_scope, only_if, get, require_stored, scope_of, update_values, write_row, refused,
  is_terminal, update,
}

-- A row keeps its status if that is terminal.
abbrev pub RowKeeps : ScenarioSessionRecord → ScenarioSessionRecord → Type 0
RowKeeps a b = is_terminal a.status ≡ true → b.status ≡ a.status

abbrev pub SessionsKeep : Store → Store → Type 0
SessionsKeep s s' =
    (k : String)
    → Related RowKeeps (select session_id k s.sessions) (select session_id k s'.sessions)

RowKeeps-refl : (r : ScenarioSessionRecord) → RowKeeps r r
RowKeeps-refl r t = refl

pub Reads-get : (c : SessionScope) (k : String) → Reads (get c k)
unfolding get
Reads-get c k = Reads-pure (λ s. only_if (in_scope c) (select session_id k s.sessions))

pub Reads-require_stored : (c : SessionScope) (k : String) → Reads (require_stored c k)
unfolding require_stored
Reads-require_stored c k =
    Ensures-read_then _ (get c k)
      (λ stored. require_some stored (runtime_error "scenario session round-trip failed"))
      (Reads-get c k)
      λ stored. Reads-require_some stored (runtime_error "scenario session round-trip failed")

-- The row that was read is the row of that key.
get_found :
    (c : SessionScope) (k : String) (s s' : Store) (x : ScenarioSessionRecord)
    → get c k s ≡ ok (some x, s')
    → (select session_id k s.sessions ≡ some x)
unfolding get only_if
get_found c k s s' x e = ground arith

keeps_if_allowed : (x r : ScenarioSessionRecord) → refused x.status r.status ≡ false → RowKeeps x r
unfolding refused
keeps_if_allowed x r h t = ground arith

sessions-write_row :
    (c : SessionScope) (k : String) (r : ScenarioSessionRecord) (s s' : Store) (b : Bool)
    → write_row c k r s ≡ ok (b, s')
    → (s'.sessions ≡ s.sessions)
      ⊎ (update_where session_id k (in_scope c) (update_values r) s.sessions ≡ some s'.sessions)
unfolding write_row
sessions-write_row c k r s s' b e =
    elim (Option-cases (update_where session_id k (in_scope c) (update_values r) s.sessions)) [
      | inl n ↦ inl (ground arith)
      | inr (rows, y) ↦ inr (ground arith)
    ]

SessionsKeep-write_row :
    (c : SessionScope) (r x : ScenarioSessionRecord) (s s' : Store) (b : Bool)
    → select session_id r.id s.sessions ≡ some x
    → RowKeeps x r
    → write_row c r.id r s ≡ ok (b, s')
    → SessionsKeep s s'
unfolding update_values
SessionsKeep-write_row c r x s s' b there keeps e = elim (sessions-write_row c r.id r s s' b e) [
  | inl same ↦ λ j. rw same (Related-refl RowKeeps RowKeeps-refl (select session_id j s.sessions))
  | inr wrote ↦
      update_where-Related_at session_id RowKeeps RowKeeps-refl r.id (in_scope c) (update_values r)
        (λ y. refl) s.sessions s'.sessions x there keeps wrote
]

Ensures-update : (c : SessionScope) (r : ScenarioSessionRecord) → Ensures SessionsKeep (update c r)
unfolding update
Ensures-update c r = Ensures-Commits SessionsKeep (update c r) λ s.
    Commits-Reads s _ (get c r.id) _ (Reads-get c r.id) λ found read.
      Commits-require_some s _ found (lookup_error "scenario session not found") _ λ x is_x.
        Commits-refuse_if s _ (refused x.status r.status)
          (runtime_error "scenario is already terminal") _
          λ allowed. Commits-step s _ (write_row c r.id r) _ λ b t wrote.
            Commits-refuse_if t _ (not b) (lookup_error "scenario session not found") _ λ _.
              Commits-last t _ (require_stored (scope_of x) r.id)
                (SessionsKeep-write_row c r x s t b
                  (get_found c r.id s s x (subst (λ o. get c r.id s ≡ ok (o, s)) is_x read))
                  (keeps_if_allowed x r allowed) wrote)
                (Reads-require_stored (scope_of x) r.id)

-- An update of a scenario session, committed or rolled back, with any record and scope, leaves the
-- status of every session that was completed, failed or expired, and removes none.
pub update-SessionsKeep :
    (c : SessionScope) (r : ScenarioSessionRecord) (s : Store)
    → SessionsKeep s (after (update c r s) s)
update-SessionsKeep c r s =
    after-Ensures SessionsKeep (update c r) s
      (λ k. Related-refl RowKeeps RowKeeps-refl (select session_id k s.sessions))
      (Ensures-update c r)
