-- ===== src/Handoffs/Repository/Outcomes.antt =====
-- The ends of a handoff, and the race between accepting and expiring it.
use mathlib.Core.Path.{subst}
use anytoolai_platform.Prelude.{
  ℕ, String, ◌≡◌, refl, sym, ◌∙◌, Bool, true, false, not, Option, none, some, List, [], ◌∷◌, arith,
  Bool-cases, inl, inr, ltb,
}
use anytoolai_platform.Prelude.Table.{select, modify, Related, select-modify_self, update_where_at}
use anytoolai_platform.Store.{Store, Result, ok, err, >>=-ok, pure}
use anytoolai_platform.Handoffs.Models.{
  HandoffStatus, created, viewed, accepted, HandoffRecord, HandoffTransitionResult, handoff_key,
}
use anytoolai_platform.Handoffs.Repository.{
  Scope, in_scope, scoped, get_by_id, require, status_in, waiting, update_row, transition_result,
  claimed, claim_accept, expire_if_due, still_open, accepted_values, due, expired_values,
}
use anytoolai_platform.Handoffs.Repository.Writes.{
  Moves, stays, views, accepts_, declines_, expires, fails_, consumes_, RowMoves, matches,
}
use anytoolai_platform.Handoffs.Repository.Lifecycle.{
  HandoffCall, run_call, run_calls, run_call-HandoffsMove,
}

-- The status is one that the lifecycle does not leave.
abbrev pub is_terminal : HandoffStatus → Bool
is_terminal created = false
is_terminal viewed = false
is_terminal accepted = false
is_terminal _ = true

waiting_not_terminal : (a : HandoffStatus) → status_in waiting a ≡ true → is_terminal a ≡ true → ⊥
unfolding status_in
waiting_not_terminal created w h = cc
waiting_not_terminal _ w h = cc

Moves-terminal : {a b : HandoffStatus} → Moves a b → is_terminal a ≡ true → b ≡ a
Moves-terminal stays h = refl
Moves-terminal views h = cc
Moves-terminal (accepts_ {a} w) h = absurd (waiting_not_terminal a w h)
Moves-terminal (declines_ {a} w) h = absurd (waiting_not_terminal a w h)
Moves-terminal (expires {a} w) h = absurd (waiting_not_terminal a w h)
Moves-terminal (fails_ {a} w) h = absurd (waiting_not_terminal a w h)
Moves-terminal consumes_ h = cc

terminal_row :
    (h : HandoffRecord) (o : Option HandoffRecord)
    → Related RowMoves (some h) o
    → is_terminal h.status ≡ true
    → (h' : HandoffRecord) × (o ≡ some h') × (h'.status ≡ h.status)
terminal_row h none m t = absurd m
terminal_row h (some h') m t = (h', refl, Moves-terminal m t)

-- Once a handoff is declined, consumed, expired or failed, no sequence of repository calls changes
-- its status or removes it.
pub handoff_terminal_forever :
    (xs : List HandoffCall) (s : Store) (k : String) (h : HandoffRecord)
    → select handoff_key k s.handoffs ≡ some h
    → is_terminal h.status ≡ true
    → (h' : HandoffRecord) × (select handoff_key k (run_calls xs s).handoffs ≡ some h')
      × (h'.status ≡ h.status)
unfolding run_calls
handoff_terminal_forever [] s k h e t = (h, e, refl)
handoff_terminal_forever (x ∷ xs) s k h e t =
    let (h₁, e₁, same₁) =
      terminal_row h (select handoff_key k (run_call x s).handoffs)
        (subst (λ o. Related RowMoves o (select handoff_key k (run_call x s).handoffs)) e
          (run_call-HandoffsMove x s k))
        t in
    let (h₂, e₂, same₂) =
      handoff_terminal_forever xs (run_call x s) k h₁ e₁
        (subst (λ a. is_terminal a ≡ true) (sym same₁) t) in
    (h₂, e₂, same₂ ∙ same₁)

module _ (c : Scope) (k : String) (from : List HandoffStatus) (extra : HandoffRecord → Bool)
    (f : HandoffRecord → HandoffRecord) (s : Store) (h : HandoffRecord)
    (there : select handoff_key k s.handoffs ≡ some h) where
  update_row_hit :
      matches c k from extra f h ≡ true
      → update_row c k from extra f s
        ≡ ok (true, record s { handoffs = modify handoff_key k f s.handoffs })
  unfolding update_row
  update_row_hit m = rw (
    update_where_at handoff_key k (matches c k from extra f) f s.handoffs h true there m,
    update_row,
  )

  update_row_miss :
      matches c k from extra f h ≡ false → update_row c k from extra f s ≡ ok (false, s)
  unfolding update_row
  update_row_miss m = rw (
    update_where_at handoff_key k (matches c k from extra f) f s.handoffs h false there m,
    update_row,
  )

require_hit :
    (c : Scope) (k : String) (s : Store) (h : HandoffRecord)
    → select handoff_key k s.handoffs ≡ some h
    → in_scope c h ≡ true
    → require c k s ≡ ok (h, s)
unfolding require
require_hit c k s h there here = rw (there, require, get_by_id, scoped) (ground arith)

-- Whether the call claimed the handoff, and whether it expired it.
abbrev pub did_claim : Result (Option HandoffRecord × Store) → Bool
did_claim (ok (some h, s)) = true
did_claim _ = false

abbrev pub did_change : Result (HandoffTransitionResult × Store) → Bool
did_change (ok (r, s)) = r.changed
did_change (err e) = false

module _ (c : Scope) (k : String) (s : Store) (h : HandoffRecord)
    (there : select handoff_key k s.handoffs ≡ some h) (here : in_scope c h ≡ true) where
  -- The store after a write of the row.
  abbrev written : (HandoffRecord → HandoffRecord) → Store
  written f = record s { handoffs = modify handoff_key k f s.handoffs }

  require-written :
      (f : HandoffRecord → HandoffRecord)
      → ((r : HandoffRecord) → (f r).id ≡ r.id)
      → in_scope c (f h) ≡ true
      → require c k (written f) ≡ ok (f h, written f)
  require-written f keeps inside =
      require_hit c k (written f) (f h)
        (select-modify_self handoff_key f keeps k s.handoffs h there) inside

  claim_hit :
      (now : ℕ) (guest frontend : Option String)
      → matches c k waiting (still_open now) (accepted_values now guest frontend) h ≡ true
      → claim_accept c now guest frontend k s
        ≡ ok (
          some (accepted_values now guest frontend h),
          written (accepted_values now guest frontend),
        )
  unfolding claim_accept in_scope
  claim_hit now guest frontend m =
      >>=-ok (update_row c k waiting (still_open now) (accepted_values now guest frontend))
        (claimed c k) s _ true
        (update_row_hit c k waiting (still_open now) (accepted_values now guest frontend) s h there
          m)
      ∙ >>=-ok (require c k) (λ row. pure (some row)) _ _ (accepted_values now guest frontend h)
          (require-written (accepted_values now guest frontend) (λ r. refl) here)

  claim_miss :
      (now : ℕ) (guest frontend : Option String)
      → matches c k waiting (still_open now) (accepted_values now guest frontend) h ≡ false
      → claim_accept c now guest frontend k s ≡ ok (none, s)
  unfolding claim_accept
  claim_miss now guest frontend m =
      >>=-ok (update_row c k waiting (still_open now) (accepted_values now guest frontend))
        (claimed c k) s s false
        (update_row_miss c k waiting (still_open now) (accepted_values now guest frontend) s h there
          m)

  expire_hit :
      (now : ℕ)
      → matches c k waiting (due now) (expired_values now) h ≡ true
      → expire_if_due c now k s
        ≡ ok (
          record { record_ = expired_values now h; changed = true },
          written (expired_values now),
        )
  unfolding expire_if_due in_scope
  expire_hit now m =
      >>=-ok (update_row c k waiting (due now) (expired_values now)) (transition_result c k) s _
        true (update_row_hit c k waiting (due now) (expired_values now) s h there m)
      ∙ >>=-ok (require c k) (λ row. pure (record { record_ = row; changed = true })) _ _
          (expired_values now h) (require-written (expired_values now) (λ r. refl) here)

  expire_miss :
      (now : ℕ)
      → matches c k waiting (due now) (expired_values now) h ≡ false
      → expire_if_due c now k s ≡ ok (record { record_ = h; changed = false }, s)
  unfolding expire_if_due
  expire_miss now m =
      >>=-ok (update_row c k waiting (due now) (expired_values now)) (transition_result c k) s s
        false (update_row_miss c k waiting (due now) (expired_values now) s h there m)
      ∙ >>=-ok (require c k) (λ row. pure (record { record_ = row; changed = false })) s s h
          (require_hit c k s h there here)

-- At each instant a waiting handoff in scope without a recorded failure is accepted by claim_accept
-- exactly before its expiry, and expired by expire_if_due exactly from its expiry on.
pub accept_xor_expire :
    (c : Scope) (now : ℕ) (guest frontend : Option String) (k : String) (s : Store)
    (h : HandoffRecord)
    → select handoff_key k s.handoffs ≡ some h
    → in_scope c h ≡ true
    → status_in waiting h.status ≡ true
    → h.error_code ≡ none
    → (did_claim (claim_accept c now guest frontend k s) ≡ ltb now h.expires_at)
      × (did_change (expire_if_due c now k s) ≡ not (ltb now h.expires_at))
unfolding still_open due
accept_xor_expire c now guest frontend k s h there here waits clean =
    elim (Bool-cases (ltb now h.expires_at)) [
      | inl early ↦ (
        rw (early, claim_hit c k s h there here now guest frontend (ground arith)),
        rw (early, expire_miss c k s h there here now (ground arith)),
      )
      | inr late ↦ (
        rw (late, claim_miss c k s h there here now guest frontend (ground arith)),
        rw (late, expire_hit c k s h there here now (ground arith)),
      )
    ]
