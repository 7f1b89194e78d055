-- ===== src/Workflows/Jobs/Claims.antt =====
-- The calls that take a job that was created (workflows/repository.py).
use anytoolai_platform.Prelude.{
  ℕ, String, ◌≡◌, refl, sym, Bool, true, false, Option, none, some, arith, Option-cases, inl, inr,
  ◌⊎◌, List,
}
use mathlib.Core.Path.{subst}
use anytoolai_platform.Prelude.Table.{
  select, update_where, update_where_cases, update_where_at, select-modify_self,
}
use anytoolai_platform.Json.{Fields}
use anytoolai_platform.Store.{Store, ok, >>=-ok, >>=-eq-ok}
use anytoolai_platform.Workflows.Jobs.Writes.{Reads-claimed}
use anytoolai_platform.Workflows.Models.{created, status_eq, JobRecord, job_id}
use anytoolai_platform.Workflows.Jobs.{
  update_status, claimed, conditional_transition_from_created, claim_values, cancel_values,
  claim_created, cancel_created,
}

-- The job of that id is stored and no longer created.
abbrev IsTaken : String → Store → Type 0
IsTaken k s =
    (j : JobRecord) × (select job_id k s.jobs ≡ some j) × (status_eq j.status created ≡ false)

module _ (k : String) (f : JobRecord → JobRecord) (keeps : (j : JobRecord) → (f j).id ≡ j.id)
    (leaves : (j : JobRecord) → status_eq (f j).status created ≡ false) where
  update_status-IsTaken : (s t : Store) → update_status k created f s ≡ ok (true, t) → IsTaken k t
  unfolding update_status
  update_status-IsTaken s t e =
      elim (Option-cases (update_where job_id k (λ j. status_eq j.status created) f s.jobs)) [
        | inl n ↦ absurd (ground arith)
        | inr (rows, y) ↦ taken rows y (ground arith)
      ]
    where
      taken :
          (rows : List JobRecord)
          → update_where job_id k (λ j. status_eq j.status created) f s.jobs ≡ some rows
          → t.jobs ≡ rows
          → IsTaken k t
      taken rows y same =
          let (x, there, passed, wrote) =
            update_where_cases job_id k (λ j. status_eq j.status created) f s.jobs rows y in
          (f x, rw (same, wrote) (select-modify_self job_id f keeps k s.jobs x there), leaves x)

  claimed-IsTaken :
      (changed : Bool) (s u t : Store) (j : JobRecord)
      → update_status k created f s ≡ ok (changed, u)
      → claimed k changed u ≡ ok (some j, t)
      → IsTaken k t
  unfolding claimed
  claimed-IsTaken false s u t j e₁ e₂ = absurd (ground arith)
  claimed-IsTaken true s u t j e₁ e₂ =
      subst (IsTaken k) (sym ((Reads-claimed k true).at u (some j) t e₂))
        (update_status-IsTaken s u e₁)

  won-IsTaken :
      (s t : Store) (j : JobRecord)
      → conditional_transition_from_created k f s ≡ ok (some j, t)
      → IsTaken k t
  unfolding conditional_transition_from_created
  won-IsTaken s t j e =
      let (changed, u, e₁, e₂) = >>=-eq-ok (update_status k created f) (claimed k) s e in
      claimed-IsTaken changed s u t j e₁ e₂

module _ (k : String) (f : JobRecord → JobRecord) where
  update_status-lost : (s : Store) → IsTaken k s → update_status k created f s ≡ ok (false, s)
  unfolding update_status
  update_status-lost s (j, there, gone) =
      rw
        (
          update_where_at job_id k (λ x. status_eq x.status created) f s.jobs j false there gone,
          update_status,
        )
        refl

  lost : (s : Store) → IsTaken k s → conditional_transition_from_created k f s ≡ ok (none, s)
  unfolding conditional_transition_from_created claimed
  lost s taken =
      >>=-ok (update_status k created f) (claimed k) s s false (update_status-lost s taken)

-- Once claim_created has claimed a job, or cancel_created has canceled it, the next call of either,
-- at any instant, gets nothing and writes nothing.
pub claimed_once :
    (now now' : ℕ) (k : String) (m m' : Option Fields) (s t : Store) (j : JobRecord)
    → (claim_created now k m s ≡ ok (some j, t)) ⊎ (cancel_created now k m s ≡ ok (some j, t))
    → (claim_created now' k m' t ≡ ok (none, t)) × (cancel_created now' k m' t ≡ ok (none, t))
unfolding claim_created cancel_created
claimed_once now now' k m m' s t j won =
    let taken : IsTaken k t = elim won [
      | inl e ↦ won-IsTaken k (claim_values now m) (λ x. refl) (λ x. refl) s t j e
      | inr e ↦ won-IsTaken k (cancel_values now m) (λ x. refl) (λ x. refl) s t j e
    ] in
    (lost k (claim_values now' m') t taken, lost k (cancel_values now' m') t taken)
