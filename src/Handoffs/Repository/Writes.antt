-- ===== src/Handoffs/Repository/Writes.antt =====
-- The moves of a handoff's status, and which of them each write of the repository makes.
use anytoolai_platform.Prelude.{
  ℕ, String, ◌≡◌, refl, ◌⊎◌, inl, inr, Bool, true, false, not, ◌&&◌, Option, none, some, List, [],
  ◌∷◌, arith, Option-cases,
}
use anytoolai_platform.Prelude.Table.{
  select, update_where, insert, Related, Related-refl, update_where-Related, insert-Related,
}
use anytoolai_platform.Store.{
  Store, ok, value_error, lookup_error, runtime_error, require_some, pure,
}
use anytoolai_platform.Store.Ensures.{
  Ensures, Reads, Ensures-then_read, Ensures-read_then, Ensures-refuse_if, Reads-pure,
  Reads-require_some,
}
use anytoolai_platform.Handoffs.Models.{
  HandoffStatus, created, viewed, accepted, declined, consumed, expired, failed, HandoffRecord,
  handoff_key, handoff_status_eq,
}
use anytoolai_platform.Handoffs.Repository.{
  Scope, in_scope, scoped, get_by_id, require, create, insert_row, status_in, waiting, update_row,
  transition_result, claimed, attach_row, attached_values, unattached, require_target_rows,
  require_target_session, require_target_job,
}

-- The moves that a handoff may make in one call.
pub data Moves : HandoffStatus → HandoffStatus → Type 0 where
  stays : {a : HandoffStatus} → Moves a a
  views : Moves created viewed
  accepts_ : {a : HandoffStatus} → status_in waiting a ≡ true → Moves a accepted
  declines_ : {a : HandoffStatus} → status_in waiting a ≡ true → Moves a declined
  expires : {a : HandoffStatus} → status_in waiting a ≡ true → Moves a expired
  fails_ : {a : HandoffStatus} → status_in waiting a ≡ true → Moves a failed
  consumes_ : Moves accepted consumed

abbrev pub RowMoves : HandoffRecord → HandoffRecord → Type 0
RowMoves a b = Moves a.status b.status

-- Every handoff that was there is still there, in the status that it had or one move on.
abbrev pub HandoffsMove : Store → Store → Type 0
HandoffsMove s s' =
    (k : String)
    → Related RowMoves (select handoff_key k s.handoffs) (select handoff_key k s'.handoffs)

pub HandoffsMove-refl : (s : Store) → HandoffsMove s s
HandoffsMove-refl s k = Related-refl RowMoves (λ r. stays) (select handoff_key k s.handoffs)

module _ (c : Scope) (k : String) (from : List HandoffStatus) (extra : HandoffRecord → Bool)
    (f : HandoffRecord → HandoffRecord) where
  abbrev pub matches : HandoffRecord → Bool
  matches h = in_scope c h && status_in from h.status && extra h

  -- The handoffs are as they were, or one row was updated.
  handoffs-update_row :
      (s s' : Store) (a : Bool)
      → update_row c k from extra f s ≡ ok (a, s')
      → (s'.handoffs ≡ s.handoffs)
        ⊎ (update_where handoff_key k matches f s.handoffs ≡ some s'.handoffs)
  unfolding update_row
  handoffs-update_row s s' a e =
      elim (Option-cases (update_where handoff_key k matches f s.handoffs)) [
        | inl n ↦ inl (ground arith)
        | inr (rows, y) ↦ inr (ground arith)
      ]

module _ (c : Scope) (k : String) (from : List HandoffStatus) (extra : HandoffRecord → Bool)
    (f : HandoffRecord → HandoffRecord) (keeps : (r : HandoffRecord) → (f r).id ≡ r.id)
    (moves : (r : HandoffRecord)
      → status_in from r.status ≡ true
      → Moves r.status (f r).status) where
  matched : (r : HandoffRecord) → matches c k from extra f r ≡ true → Moves r.status (f r).status
  matched r h = moves r (ground arith)

  pub HandoffsMove-update_row : Ensures HandoffsMove (update_row c k from extra f)
  HandoffsMove-update_row = record {
    at = λ s a s' e. elim (handoffs-update_row c k from extra f s s' a e) [
      | inl same ↦
          λ j. rw same (Related-refl RowMoves (λ r. stays) (select handoff_key j s.handoffs))
      | inr wrote ↦
          update_where-Related handoff_key RowMoves (λ r. stays) k (matches c k from extra f) f
            keeps matched s.handoffs s'.handoffs wrote
    ];
  }

HandoffsMove-insert_row : (h : HandoffRecord) → Ensures HandoffsMove (insert_row h)
unfolding insert_row
HandoffsMove-insert_row h = record {
  at = λ s a s' e. elim (Option-cases (insert handoff_key h s.handoffs)) [
    | inl n ↦ absurd (ground arith)
    | inr (rows, y) ↦
        insert-Related handoff_key RowMoves (λ r. stays) h s.handoffs s'.handoffs (ground arith)
  ];
}

pub Reads-get_by_id : (c : Scope) (k : String) → Reads (get_by_id c k)
unfolding get_by_id
Reads-get_by_id c k = Reads-pure (λ s. scoped c (select handoff_key k s.handoffs))

pub Reads-require : (c : Scope) (k : String) → Reads (require c k)
unfolding require
Reads-require c k =
    Ensures-read_then _ (get_by_id c k) (λ row. require_some row (lookup_error "handoff not found"))
      (Reads-get_by_id c k) λ row. Reads-require_some row (lookup_error "handoff not found")

pub Reads-transition_result : (c : Scope) (k : String) (b : Bool) → Reads (transition_result c k b)
unfolding transition_result
Reads-transition_result c k b =
    Ensures-read_then _ (require c k) (λ row. pure (record { record_ = row; changed = b }))
      (Reads-require c k) λ row. Reads-pure (λ s. record { record_ = row; changed = b })

pub Reads-claimed : (c : Scope) (k : String) (b : Bool) → Reads (claimed c k b)
unfolding claimed
Reads-claimed c k false = Reads-pure (λ s. none)
Reads-claimed c k true =
    Ensures-read_then _ (require c k) (λ row. pure (some row)) (Reads-require c k)
      λ row. Reads-pure (λ s. some row)

pub HandoffsMove-create : (h : HandoffRecord) → Ensures HandoffsMove (create h)
unfolding create
HandoffsMove-create h =
    Ensures-refuse_if _ (not (handoff_status_eq h.status created))
      (value_error "handoff creation requires status=created") _
      λ _. Ensures-then_read _ (insert_row h) _ (HandoffsMove-insert_row h) λ _.
        Ensures-read_then _ (get_by_id (record { tenant_id = h.tenant_id; region = h.region }) h.id)
          (λ stored. require_some stored (runtime_error "handoff round-trip failed after create"))
          (Reads-get_by_id _ h.id)
          λ stored.
            Reads-require_some stored (runtime_error "handoff round-trip failed after create")

pub Reads-require_target_rows :
    (c : Scope) (k session : String) (job : Option String)
    → Reads (require_target_rows c k session job)
unfolding require_target_rows
Reads-require_target_rows c k session job =
    Ensures-read_then _ (require c k) _ (Reads-require c k) λ h.
      Ensures-read_then _ (require_target_session h session) _ (reads_session h)
        λ _. reads_job h job
  where
    reads_session : (h : HandoffRecord) → Reads (require_target_session h session)
    reads_session h = unfold require_target_session in record { at = λ s a s' e. ground arith }

    reads_job : (h : HandoffRecord) (j : Option String) → Reads (require_target_job h session j)
    reads_job h none = unfold require_target_job in record { at = λ s a s' e. ground arith }
    reads_job h (some j) = unfold require_target_job in record { at = λ s a s' e. ground arith }

pub HandoffsMove-attach_row :
    (c : Scope) (now : ℕ) (session : String) (job : Option String) (k : String)
    → Ensures HandoffsMove (attach_row c now session job k)
unfolding attach_row attached_values
HandoffsMove-attach_row c now session job k = record {
  at = λ s a s' e.
      (HandoffsMove-update_row c k (accepted ∷ []) unattached (attached_values now session job)
          (λ r. refl) (λ r h. stays)).at
        s a s' (ground arith);
}
