-- ===== src/Quotas/Uniqueness.antt =====
-- The reservations of one job and of one session.
use anytoolai_platform.Prelude.{
  ℕ, ◌≤◌, String, ◌==◌, ◌≡◌, refl, Bool, true, false, not, Option, some, List, [], ◌∷◌, ◌++◌, arith,
  one_if, eq_iff, Option-cases, Bool-cases, inl, inr,
}
use mathlib.Core.Path.{subst}
use anytoolai_platform.Prelude.Table.{
  find, exists, count, count-append, count-modify, insert, insert_cases, update_where,
  update_where_cases,
}
use anytoolai_platform.Store.{after, Store, ok, value_error, runtime_error}
use anytoolai_platform.Store.Ensures.{
  after-Ensures, Ensures, Reads, Ensures-read_then, Ensures-then_read, Ensures-refuse_if,
  Reads-require_some, Reads-refuse_if, Reads-pure,
}
use anytoolai_platform.Store.Commits.{Ensures-Commits}
use anytoolai_platform.Quotas.Settlement.Steps.{Commits-transition}
use anytoolai_platform.Quotas.Settlement.{settle_reservation, is_reserved, final_values, transition}
use anytoolai_platform.Quotas.Arbitration.{reservations-settle_bucket}
use anytoolai_platform.Quotas.Models.{
  ExecutionReservation, reservation_key, ReservationState, reserved, consumed, state_eq,
  ExecutionOwnerKind, guest, portal_user,
}
use anytoolai_platform.Quotas.Reservations.{
  insert_row, create, unique_taken, validate_links, get_by_job, require_execution_link,
  require_bucket_link, joined_session, guest_links, bucket_links,
}
use anytoolai_platform.Scenarios.Models.{ScenarioSessionRecord}

-- A text column in which each value stands once at most.
abbrev pub Distinct : {Row : Type 0} → (Row → String) → List Row → Type 0
Distinct column rows = (v : String) → count (λ r. column r == v) rows ≤ 1

count-not-exists :
    {Row : Type 0} (test : Row → Bool) (rows : List Row)
    → exists test rows ≡ false
    → count test rows ≡ 0
unfolding exists count
count-not-exists test [] h = refl
count-not-exists test (r ∷ rs) h = ground (arith, count-not-exists test rs)

one_if-≤ : (b : Bool) → one_if b ≤ 1
one_if-≤ true = omega arith
one_if-≤ false = omega arith

module _ {Row : Type 0} (column : Row → String) where
  Distinct-append :
      (r : Row) (rows : List Row)
      → exists (λ x. column x == column r) rows ≡ false
      → Distinct column rows
      → Distinct column (rows ++ r ∷ [])
  Distinct-append r rows new h v = elim (Bool-cases (column r == v)) [
    | inl same ↦
        subst (λ w. count (λ x. column x == w) (rows ++ r ∷ []) ≤ 1) ((eq_iff (column r) v).0 same)
          (omega (
            arith,
            count-append (λ x. column x == column r) r rows,
            count-not-exists (λ x. column x == column r) rows new,
            one_if-≤ (column r == column r),
          ))
    | inr other ↦ ground (arith, count-append (λ x. column x == v) r rows, h v)
  ]

  Distinct-update_where :
      (key : Row → String) (k : String) (cond : Row → Bool) (f : Row → Row) (rows rows' : List Row)
      → ((r : Row) → column (f r) ≡ column r)
      → update_where key k cond f rows ≡ some rows'
      → Distinct column rows
      → Distinct column rows'
  Distinct-update_where key k cond f rows rows' keeps wrote h v =
      let (r, there, passed, now) = update_where_cases key k cond f rows rows' wrote in
      let same : one_if (column (f r) == v) ≡ one_if (column r == v) = rw (keeps r) refl in
      rw now (omega (arith, count-modify key (λ x. column x == v) k f rows r there, same, h v))

-- No job has two reservations, and no session has.
pub record IsOneEach (s : Store) : Type 0 where
  pub by_job : Distinct (λ r. r.job_id) s.reservations
  pub by_session : Distinct (λ r. r.scenario_session_id) s.reservations

abbrev Keeps : Store → Store → Type 0
Keeps s t = IsOneEach s → IsOneEach t

insert_row_cases :
    (r : ExecutionReservation) (s t : Store) (a : Unit {0})
    → insert_row r s ≡ ok (a, t)
    → (unique_taken r s ≡ false) × (insert reservation_key r s.reservations ≡ some t.reservations)
unfolding insert_row
insert_row_cases r s t a e = elim (Option-cases (insert reservation_key r s.reservations)) [
  | inl n ↦ absurd (ground arith)
  | inr (rows, y) ↦ (ground arith, ground arith)
]

unique_columns :
    (r : ExecutionReservation) (s : Store)
    → unique_taken r s ≡ false
    → (exists (λ x. x.scenario_session_id == r.scenario_session_id) s.reservations ≡ false)
      × (exists (λ x. x.job_id == r.job_id) s.reservations ≡ false)
unfolding unique_taken
unique_columns r s h = (ground arith, ground arith)

Keeps-insert_row : (r : ExecutionReservation) → Ensures Keeps (insert_row r)
Keeps-insert_row r = record {
  at = λ s a t e h.
      let (free, wrote) = insert_row_cases r s t a e in
      let (session_free, job_free) = unique_columns r s free in
      let appended = (insert_cases reservation_key r s.reservations t.reservations wrote).1 in
      record {
        by_job = rw appended (Distinct-append (λ x. x.job_id) r s.reservations job_free h.by_job);
        by_session = rw appended (
            Distinct-append (λ x. x.scenario_session_id) r s.reservations session_free
              h.by_session);
      };
}

Reads-require_execution_link : (r : ExecutionReservation) → Reads (require_execution_link r)
unfolding require_execution_link guest_links
Reads-require_execution_link r = record {
  at = λ s a t e. elim (Option-cases (joined_session r s)) [
    | inl n ↦ absurd (ground arith)
    | inr (x, y) ↦ (Reads-guest_links r.owner.owner_kind r x).at s a t (ground arith)
  ];
}
  where
    Reads-guest_links :
        (kind : ExecutionOwnerKind) (r : ExecutionReservation) (x : ScenarioSessionRecord)
        → Reads (guest_links kind r x)
    Reads-guest_links guest r x = Reads-refuse_if _ _
    Reads-guest_links portal_user r x = Reads-pure (λ s. tt)

Reads-require_bucket_link : (r : ExecutionReservation) → Reads (require_bucket_link r)
unfolding require_bucket_link
Reads-require_bucket_link r = record {
  at = λ s a t e. elim (Bool-cases (bucket_links r.owner.owner_kind r s)) [
    | inl linked ↦ ground arith
    | inr unlinked ↦ absurd (ground arith)
  ];
}

Reads-get_by_job : (k : String) → Reads (get_by_job k)
unfolding get_by_job
Reads-get_by_job k = Reads-pure (λ s. find (λ r. r.job_id == k) s.reservations)

Reads-validate_links : (r : ExecutionReservation) → Reads (validate_links r)
unfolding validate_links
Reads-validate_links r =
    Ensures-read_then _ (require_execution_link r) _ (Reads-require_execution_link r)
      λ _. Reads-require_bucket_link r

Keeps-create : (r : ExecutionReservation) → Ensures Keeps (create r)
unfolding create
Keeps-create r =
    Ensures-refuse_if Keeps (not (state_eq r.state reserved))
      (value_error "new execution reservation must be reserved") _
      λ _. Ensures-read_then Keeps (validate_links r) _ (Reads-validate_links r) λ _.
        Ensures-then_read Keeps (insert_row r) _ (Keeps-insert_row r) λ _.
          Ensures-read_then _ (get_by_job r.job_id) _ (Reads-get_by_job r.job_id) λ stored.
            Reads-require_some stored
              (runtime_error "execution reservation round-trip failed after create")

Keeps-settle_reservation :
    (state : ReservationState) (artifact : Option String) (now : ℕ) (k : String)
    → Ensures Keeps (settle_reservation state artifact now k)
unfolding settle_reservation final_values
Keeps-settle_reservation state artifact now k = record {
  at = λ s b t e h.
      elim (Option-cases (
        update_where reservation_key k is_reserved (final_values state artifact now)
          s.reservations)) [
            | inl n ↦ subst IsOneEach (ground arith) h
            | inr (rows, y) ↦
                let wrote : update_where reservation_key k is_reserved
                      (final_values state artifact now) s.reservations
                    ≡ some t.reservations =
                  ground arith in
                record {
                  by_job =
                      Distinct-update_where (λ x. x.job_id) reservation_key k is_reserved
                        (final_values state artifact now) s.reservations t.reservations (λ x. refl)
                        wrote h.by_job;
                  by_session =
                      Distinct-update_where (λ x. x.scenario_session_id) reservation_key k
                        is_reserved (final_values state artifact now) s.reservations t.reservations
                        (λ x. refl) wrote h.by_session;
                }
          ];
}

Keeps-transition :
    (now : ℕ) (r : ExecutionReservation) (state : ReservationState) (artifact : Option String)
    → Ensures Keeps (transition now r state artifact)
Keeps-transition now r state artifact = Ensures-Commits Keeps (transition now r state artifact) λ s.
    Commits-transition (Keeps s) now r state artifact s λ link t u linked settled arbitrated. λ h.
      (Keeps-settle_reservation state artifact now r.id).at t true u arbitrated (
        unmoved s t (reservations-settle_bucket (state_eq state consumed) now link s t true settled)
          h)
  where
    unmoved : (s t : Store) → t.reservations ≡ s.reservations → IsOneEach s → IsOneEach t
    unmoved s t same h = record { by_job = rw same h.by_job; by_session = rw same h.by_session }

-- If no job has two reservations and no session has, that still holds after a reservation is
-- created, and after a terminal transition of one, committed or rolled back.
pub one_reservation_each :
    (new r : ExecutionReservation) (now : ℕ) (state : ReservationState) (artifact : Option String)
    (s : Store)
    → IsOneEach s
    → IsOneEach (after (create new s) s) × IsOneEach (after (transition now r state artifact s) s)
one_reservation_each new r now state artifact s h = (
  after-Ensures Keeps (create new) s (λ x. x) (Keeps-create new) h,
  after-Ensures Keeps (transition now r state artifact) s (λ x. x)
      (Keeps-transition now r state artifact) h,
)
