-- ===== src/Quotas/Quantities.antt =====
-- The quantities of paid allowances, against what is used and held of them.
use anytoolai_platform.Prelude.{
  ℕ, ◌+◌, ◌≤◌, String, ◌≡◌, refl, Bool, true, false, not, Option, none, some, List, [], ◌∷◌, arith,
  Option-cases, Bool-cases, inl, inr, ◌⊎◌,
}
use anytoolai_platform.Prelude.Table.{insert, update_where, exists, find}
use anytoolai_platform.Prelude.Rows.{Each, Each-insert, Each-update_where}
use anytoolai_platform.Store.{
  Store, ok, after, runtime_error, value_error, ◌>>=◌, ◌>>◌, require_some, refuse_if, pure,
}
use anytoolai_platform.Store.Ensures.{
  Ensures, Reads, Reads-pure, after-Ensures, Ensures-then_read, Ensures-read_then,
}
use anytoolai_platform.Store.Commits.{Ensures-Commits}
use anytoolai_platform.Quotas.Models.{
  PaidAllowance, PaidAllowanceUsageRecord, paid_key, usage_key, reservation_key, allowance_eq,
  ReservationState, consumed, state_eq, ExecutionReservation,
}
use anytoolai_platform.Quotas.Paid.{
  get, has_allowance, insert_binding, new_binding, ensure_usage, has_capacity, reserved_values,
  lock_row, update_row, reserve_if_available,
}
use anytoolai_platform.Quotas.Usage
use anytoolai_platform.Quotas.Settlement.Steps.{Commits-transition}
use anytoolai_platform.Quotas.Settlement.{
  BucketLink, in_usages, in_allowances, paid_holds, settled_paid, settle_bucket, settle_reservation,
  transition, guest_holds, settled_guest, is_reserved, final_values,
}

abbrev pub Fits : PaidAllowanceUsageRecord → Type 0
Fits b = b.used_count + b.reserved_count ≤ b.allowance.quantity

abbrev pub NeverOversold : Store → Type 0
NeverOversold s = Each paid_key Fits s.allowances

-- One call that writes the paid buckets.
pub data PaidCall : Type 0 where
  ensures : PaidAllowance → String → ℕ → ℕ → PaidCall
  reserves : ℕ → PaidAllowanceUsageRecord → PaidCall
  settles : ℕ → ExecutionReservation → ReservationState → Option String → PaidCall

-- The store after the call: what it wrote, or nothing where it raises.
unfoldable pub run_call : PaidCall → Store → Store
run_call (ensures a new_id created updated) s = after (ensure_usage a new_id created updated s) s
run_call (reserves now r) s = after (reserve_if_available now r s) s
run_call (settles now r state artifact) s = after (transition now r state artifact s) s

unfoldable pub run_calls : List PaidCall → Store → Store
unfolding run_call
run_calls [] s = s
run_calls (c ∷ cs) s = run_calls cs (run_call c s)

abbrev Keeps : Store → Store → Type 0
Keeps s t = NeverOversold s → NeverOversold t

insert_binding_cases :
    (r : PaidAllowanceUsageRecord) (a : Unit {0}) (s s' : Store)
    → insert_binding r s ≡ ok (a, s')
    → (s'.allowances ≡ s.allowances) ⊎ (insert paid_key r s.allowances ≡ some s'.allowances)
unfolding insert_binding
insert_binding_cases r a s s' e = elim (Option-cases (insert paid_key r s.allowances)) [
  | inl n ↦ inl (ground arith)
  | inr (rows, y) ↦
      elim (Bool-cases (
        exists
          (has_allowance r.allowance.owner.tenant_id r.allowance.owner.region
            r.allowance.allowance_id)
          s.allowances)) [ inl there ↦ inl (ground arith) | inr new ↦ inr (ground arith) ]
]

update_row_cases :
    (k : String) (cond : PaidAllowanceUsageRecord → Bool)
    (f : PaidAllowanceUsageRecord → PaidAllowanceUsageRecord) (b : Bool) (s s' : Store)
    → update_row k cond f s ≡ ok (b, s')
    → (s'.allowances ≡ s.allowances)
      ⊎ (update_where paid_key k cond f s.allowances ≡ some s'.allowances)
unfolding update_row
update_row_cases k cond f b s s' e =
    elim (Option-cases (update_where paid_key k cond f s.allowances)) [
      | inl n ↦ inl (ground arith)
      | inr (rows, y) ↦ inr (ground arith)
    ]

Keeps-insert_binding : (r : PaidAllowanceUsageRecord) → Fits r → Ensures Keeps (insert_binding r)
Keeps-insert_binding r fits = record {
  at = λ s a s' e h. elim (insert_binding_cases r a s s' e) [
    | inl same ↦ rw same h
    | inr wrote ↦ Each-insert paid_key Fits r s.allowances s'.allowances fits wrote h
  ];
}

module _ (k : String) (cond : PaidAllowanceUsageRecord → Bool)
    (f : PaidAllowanceUsageRecord → PaidAllowanceUsageRecord)
    (keeps : (r : PaidAllowanceUsageRecord) → (f r).id ≡ r.id)
    (step : (r : PaidAllowanceUsageRecord) → cond r ≡ true → Fits r → Fits (f r)) where
  Keeps-update_row : Ensures Keeps (update_row k cond f)
  Keeps-update_row = record {
    at = λ s b s' e h. elim (update_row_cases k cond f b s s' e) [
      | inl same ↦ rw same h
      | inr wrote ↦
          Each-update_where paid_key Fits k cond f keeps step s.allowances s'.allowances wrote h
    ];
  }

Reads-checked_binding :
    (a : PaidAllowance) (found : Option PaidAllowanceUsageRecord)
    → Reads (
        require_some found (runtime_error "paid allowance round-trip failed after ensure")
        >>= λ stored.
            refuse_if
              (not (allowance_eq stored.allowance a))
              (value_error "paid allowance binding cannot change")
            >> pure stored)
Reads-checked_binding a none = record { at = λ s b s' e. ground arith }
Reads-checked_binding a (some stored) = record { at = λ s b s' e. ground arith }

Keeps-ensure_usage :
    (a : PaidAllowance) (new_id : String) (created updated : ℕ)
    → Ensures Keeps (ensure_usage a new_id created updated)
unfolding ensure_usage new_binding get
Keeps-ensure_usage a new_id created updated =
    Ensures-then_read Keeps (insert_binding (new_binding a new_id created updated)) _
      (Keeps-insert_binding (new_binding a new_id created updated) (omega arith))
      λ _.
        Ensures-read_then _ (get a.owner.tenant_id a.owner.region a.allowance_id) _
          (Reads-pure (λ s.
            find (has_allowance a.owner.tenant_id a.owner.region a.allowance_id) s.allowances))
          (Reads-checked_binding a)

Reads-lock_row : (k : String) → Reads (lock_row k)
unfolding lock_row
Reads-lock_row k = record { at = λ s a s' e. ground arith }

reserved-Fits :
    (now : ℕ) (r : PaidAllowanceUsageRecord)
    → has_capacity r ≡ true
    → Fits r
    → Fits (reserved_values now r)
unfolding has_capacity reserved_values
reserved-Fits now r c h = ground arith

settled-Fits :
    (consume : Bool) (now : ℕ) (r : PaidAllowanceUsageRecord)
    → paid_holds r ≡ true
    → Fits r
    → Fits (settled_paid consume now r)
unfolding paid_holds settled_paid
settled-Fits true now r c h = ground arith
settled-Fits false now r c h = ground arith

Keeps-reserve_if_available :
    (now : ℕ) (r : PaidAllowanceUsageRecord) → Ensures Keeps (reserve_if_available now r)
unfolding reserve_if_available reserved_values
Keeps-reserve_if_available now r =
    Ensures-read_then Keeps (lock_row r.id) _ (Reads-lock_row r.id)
      λ _. Keeps-update_row r.id has_capacity (reserved_values now) (λ b. refl) (reserved-Fits now)

Keeps-settle_bucket :
    (consume : Bool) (now : ℕ) (link : BucketLink) → Ensures Keeps (settle_bucket consume now link)
unfolding settle_bucket settled_paid Usage.update_row
Keeps-settle_bucket consume now (in_usages k) = record {
  at = λ s b s' e h. rw (untouched s b s' e) h;
}
  where
    untouched :
        (s : Store) (b : Bool) (s' : Store)
        → Usage.update_row k guest_holds (settled_guest consume now) s ≡ ok (b, s')
        → s'.allowances ≡ s.allowances
    untouched s b s' e =
        elim (Option-cases
          (update_where usage_key k guest_holds (settled_guest consume now) s.usages)) [
            | inl n ↦ ground arith
            | inr (rows, y) ↦ ground arith
          ]
Keeps-settle_bucket consume now (in_allowances k) =
    Keeps-update_row k paid_holds (settled_paid consume now) (λ b. refl) (settled-Fits consume now)

Keeps-settle_reservation :
    (state : ReservationState) (artifact : Option String) (now : ℕ) (k : String)
    → Ensures Keeps (settle_reservation state artifact now k)
unfolding settle_reservation
Keeps-settle_reservation state artifact now k = record {
  at = λ s b s' e h. rw (untouched s b s' e) h;
}
  where
    untouched :
        (s : Store) (b : Bool) (s' : Store)
        → settle_reservation state artifact now k s ≡ ok (b, s')
        → s'.allowances ≡ s.allowances
    untouched s b s' e =
        elim (Option-cases (
          update_where reservation_key k is_reserved (final_values state artifact now)
            s.reservations)) [ inl n ↦ ground arith | inr (rows, y) ↦ ground arith ]

Keeps-transition :
    (now : ℕ) (r : ExecutionReservation) (state : ReservationState) (artifact : Option String)
    → Ensures Keeps (transition now r state artifact)
Keeps-transition now r state artifact = Ensures-Commits Keeps (transition now r state artifact) λ s.
    Commits-transition (Keeps s) now r state artifact s λ link t u linked settled arbitrated. λ h.
      (Keeps-settle_reservation state artifact now r.id).at t true u arbitrated
        ((Keeps-settle_bucket (state_eq state consumed) now link).at s true t settled h)

Keeps-run_call : (c : PaidCall) (s : Store) → Keeps s (run_call c s)
unfolding run_call
Keeps-run_call (ensures a new_id created updated) s =
    after-Ensures Keeps (ensure_usage a new_id created updated) s (λ h. h)
      (Keeps-ensure_usage a new_id created updated)
Keeps-run_call (reserves now r) s =
    after-Ensures Keeps (reserve_if_available now r) s (λ h. h) (Keeps-reserve_if_available now r)
Keeps-run_call (settles now r state artifact) s =
    after-Ensures Keeps (transition now r state artifact) s (λ h. h)
      (Keeps-transition now r state artifact)

-- If in each paid bucket the uses and the held reservations fit in the quantity of its allowance,
-- they still do after any sequence of bindings, reservations and terminal transitions, each
-- committed or rolled back.
pub run_calls-NeverOversold :
    (cs : List PaidCall) (s : Store) → NeverOversold s → NeverOversold (run_calls cs s)
unfolding run_calls
run_calls-NeverOversold [] s h = h
run_calls-NeverOversold (c ∷ cs) s h =
    run_calls-NeverOversold cs (run_call c s) (Keeps-run_call c s h)
