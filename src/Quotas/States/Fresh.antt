-- ===== src/Quotas/States/Fresh.antt =====
-- The quota state of a bucket that is not stored yet.
use anytoolai_platform.Prelude.{
  ℕ, String, Bool, true, false, Option, none, some, List, [], ◌∷◌, ◌++◌, ◌≡◌, refl, ap, ◌∙◌, arith,
  eq_refl, Option-cases, inl, inr,
}
use mathlib.Core.Path.{subst}
use anytoolai_platform.Prelude.Table.{find, exists, insert, insert_cases}
use anytoolai_platform.Json.{Fields}
use anytoolai_platform.Store.{Store, ok, >>=-eq-ok, ◌>>=◌}
use anytoolai_platform.Quotas.Models.{
  QuotaDimension, product, scenario, dimension_eq, ExecutionOwner, QuotaUsageRecord, usage_key,
}
use anytoolai_platform.Quotas.Readback.{consumption_from_bucket}
use anytoolai_platform.Quotas.Usage.{
  UsageDimension, has_dimension, new_usage, ensure_from, execute_usage_insert, get_by_dimension,
  require_stored_usage,
}
use anytoolai_platform.Quotas.Usage
use anytoolai_platform.Quotas.States.{
  QuotaPolicy, ResolvedQuotaDimension, ResolvedQuotaPeriod, usage_dimension, usage_metadata,
  ensure_usage, get_usage, owner_of, state_from_usage, state_from_empty_usage,
}

exists-find :
    {Row : Type 0} (test : Row → Bool) (rows : List Row)
    → find test rows ≡ none
    → exists test rows ≡ false
unfolding find exists
exists-find test [] h = refl
exists-find test (r ∷ rows) h = ground (arith, exists-find test rows)

find-append :
    {Row : Type 0} (test : Row → Bool) (r : Row) (rows : List Row)
    → find test rows ≡ none
    → test r ≡ true
    → find test (rows ++ r ∷ []) ≡ some r
unfolding find
find-append test r [] h t = ground arith
find-append test r (x ∷ rows) h t = ground (arith, find-append test r rows)

dimension_eq_refl : (d : QuotaDimension) → dimension_eq d d ≡ true
dimension_eq_refl product = refl
dimension_eq_refl scenario = refl

module _ (d : UsageDimension) (in_scenario : Option String) (limit : ℕ) (metadata : Option Fields)
    (new_id : String) (made changed : ℕ) where
  has_dimension-new_usage :
      has_dimension d (new_usage d in_scenario limit metadata new_id made changed) ≡ true
  unfolding has_dimension new_usage
  has_dimension-new_usage =
      rw
        (
          eq_refl d.tenant_id,
          eq_refl d.region,
          eq_refl d.guest_id,
          eq_refl d.product_id,
          eq_refl d.quota_policy_id,
          dimension_eq_refl d.quota_dimension,
          eq_refl d.dimension_key,
          eq_refl d.period_key,
        )
        refl

  inserted :
      (s t : Store) (a : Unit {0})
      → find (has_dimension d) s.usages ≡ none
      → execute_usage_insert d (new_usage d in_scenario limit metadata new_id made changed) s
        ≡ ok (a, t)
      → find (has_dimension d) t.usages
        ≡ some (new_usage d in_scenario limit metadata new_id made changed)
  unfolding execute_usage_insert
  inserted s t a absent e =
      let free = exists-find (has_dimension d) s.usages absent in
      elim (Option-cases
        (insert usage_key (new_usage d in_scenario limit metadata new_id made changed) s.usages)) [
          | inl n ↦ absurd (ground arith)
          | inr (rows, y) ↦
              let same : t.usages ≡ rows = ground arith in
              rw
                (
                  same,
                  (insert_cases usage_key
                      (new_usage d in_scenario limit metadata new_id made changed) s.usages rows
                      y).1,
                )
                (find-append (has_dimension d)
                  (new_usage d in_scenario limit metadata new_id made changed) s.usages absent
                  has_dimension-new_usage)
        ]

  read_back :
      (s t : Store) (r u : QuotaUsageRecord)
      → find (has_dimension d) s.usages ≡ some r
      → (get_by_dimension d >>= require_stored_usage) s ≡ ok (u, t)
      → u ≡ r
  unfolding get_by_dimension require_stored_usage
  read_back s t r u there e = ground arith

  ensured_new :
      (s t : Store) (u : QuotaUsageRecord)
      → find (has_dimension d) s.usages ≡ none
      → Usage.ensure_usage d in_scenario limit metadata new_id made changed s ≡ ok (u, t)
      → u ≡ new_usage d in_scenario limit metadata new_id made changed
  unfolding Usage.ensure_usage ensure_from get_by_dimension
  ensured_new s t u absent e =
      let (a, s₁, e₁, e₂) =
        >>=-eq-ok
          (execute_usage_insert d (new_usage d in_scenario limit metadata new_id made changed))
          (λ _. get_by_dimension d >>= require_stored_usage) s
          (subst (λ o. ensure_from d in_scenario limit metadata new_id made changed o s ≡ ok (u, t))
            absent e) in
      read_back s₁ t (new_usage d in_scenario limit metadata new_id made changed) u
        (inserted s s₁ a absent e₁) e₂

module _ (o : ExecutionOwner) (product_id : String) (policy : QuotaPolicy)
    (d : ResolvedQuotaDimension) (p : ResolvedQuotaPeriod) (new_id : String)
    (made changed now : ℕ) where
  -- The row that the service would insert shows the empty state.
  state_of_new :
      state_from_usage now
        (new_usage
          (usage_dimension o product_id policy d p)
          d.scenario_id
          policy.limit_count
          (some (usage_metadata policy d))
          new_id
          made
          changed)
        policy
        p
      ≡ state_from_empty_usage now o.owner_id product_id policy d p
  unfolding state_from_usage state_from_empty_usage new_usage consumption_from_bucket
      usage_dimension owner_of
  state_of_new = ground arith

-- If a guest has no bucket in the dimension and the period that a start resolves to, then a state
-- that is read without one is the state read from the bucket that ensure_usage then creates.
pub fresh_state_same :
    (o : ExecutionOwner) (product_id : String) (policy : QuotaPolicy) (d : ResolvedQuotaDimension)
    (p : ResolvedQuotaPeriod) (new_id : String) (made changed now : ℕ) (s t : Store)
    (u : QuotaUsageRecord)
    → get_usage o product_id policy d p s ≡ ok (none, s)
    → ensure_usage o product_id policy d p new_id made changed s ≡ ok (u, t)
    → state_from_usage now u policy p ≡ state_from_empty_usage now o.owner_id product_id policy d p
unfolding get_usage ensure_usage get_by_dimension
fresh_state_same o product_id policy d p new_id made changed now s t u absent e =
    ap (λ x. state_from_usage now x policy p)
      (ensured_new (usage_dimension o product_id policy d p) d.scenario_id policy.limit_count
        (some (usage_metadata policy d)) new_id made changed s t u (ground arith) e)
    ∙ state_of_new o product_id policy d p new_id made changed now
