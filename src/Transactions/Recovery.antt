-- ===== src/Transactions/Recovery.antt =====
-- What the callbacks of a failed transaction do.
use anytoolai_platform.Prelude.{
  String, Bool, true, false, ◌≡◌, refl, none, some, List, [], ◌∷◌, ◌++◌, Option-cases, Bool-cases,
  inl, inr,
}
use anytoolai_platform.Transactions.{
  Registered, key_leb, place, SessionInfo, sorted, run_recovery, run_cleanup, leave_failed, Body,
  raises, transaction_boundary,
}

module _ {World : Type 0} where
  -- The world after all callbacks, each run on what the one before left.
  unfoldable pub run_all : List (Registered World) → World → World
  run_all [] w = w
  run_all (c ∷ cs) w = run_all cs (c.callback w).1

  abbrev pub HasNoCritical : List (Registered World) → Type 0
  HasNoCritical [] = Unit
  HasNoCritical (c ∷ cs) = (c.critical ≡ false) × HasNoCritical cs

  HasNoCritical-place :
      (r : Registered World) (xs : List (Registered World))
      → r.critical ≡ false
      → HasNoCritical xs
      → HasNoCritical (place World r xs)
  unfolding place
  HasNoCritical-place r [] h k = (h, tt)
  HasNoCritical-place r (x ∷ xs) h (k, ks) = elim (Bool-cases (key_leb World r x)) [
    | inl before ↦ rw before (h, (k, ks))
    | inr after_ ↦ rw after_ (k, HasNoCritical-place r xs h ks)
  ]

  HasNoCritical-sorted :
      (cs : List (Registered World)) → HasNoCritical cs → HasNoCritical (sorted World cs)
  unfolding sorted
  HasNoCritical-sorted [] h = tt
  HasNoCritical-sorted (c ∷ cs) (k, ks) =
      HasNoCritical-place c (sorted World cs) k (HasNoCritical-sorted cs ks)

  recovery_runs_all :
      (cs : List (Registered World)) (notes : List String) (w : World)
      → HasNoCritical cs
      → ((run_recovery World cs notes w).0 ≡ none)
        × ((run_recovery World cs notes w).2 ≡ run_all cs w)
  unfolding run_recovery run_all
  recovery_runs_all [] notes w h = (refl, refl)
  recovery_runs_all (c ∷ cs) notes w (calm, h) = elim (Option-cases (c.callback w).0) [
    | inl silent ↦ rw (silent, run_recovery) (recovery_runs_all cs notes (c.callback w).1 h)
    | inr (failure, e) ↦
        rw (e, calm, run_recovery) (recovery_runs_all cs (notes ++ failure ∷ []) (c.callback w).1 h)
  ]

  cleanup_runs_all :
      (suppress : Bool) (cs : List (Registered World)) (notes : List String) (w : World)
      → HasNoCritical cs
      → ((run_cleanup World true suppress cs notes w).0 ≡ none)
        × ((run_cleanup World true suppress cs notes w).2 ≡ run_all cs w)
  unfolding run_cleanup run_all
  cleanup_runs_all suppress [] notes w h = (refl, refl)
  cleanup_runs_all suppress (c ∷ cs) notes w (calm, h) = elim (Option-cases (c.callback w).0) [
    | inl silent ↦ rw (silent, run_cleanup) (cleanup_runs_all suppress cs notes (c.callback w).1 h)
    | inr (failure, e) ↦
        rw (e, calm, run_cleanup)
          (cleanup_runs_all suppress cs (notes ++ failure ∷ []) (c.callback w).1 h)
  ]

  leave_failed_calm :
      (error : String) (info : SessionInfo World) (w : World)
      → HasNoCritical info.rollback_callbacks
      → HasNoCritical info.cleanup_callbacks
      → leave_failed World error info w ≡ (
        some error,
        run_all
            (sorted World info.cleanup_callbacks)
            (run_all (sorted World info.rollback_callbacks) w),
      )
  unfolding leave_failed
  leave_failed_calm error info w h k =
      let (quiet, world) =
        recovery_runs_all (sorted World info.rollback_callbacks) [] w
          (HasNoCritical-sorted info.rollback_callbacks h) in
      let (quiet', world') =
        cleanup_runs_all false (sorted World info.cleanup_callbacks)
          (run_recovery World (sorted World info.rollback_callbacks) [] w).1
          (run_recovery World (sorted World info.rollback_callbacks) [] w).2
          (HasNoCritical-sorted info.cleanup_callbacks k) in
      rw (quiet, quiet', world', world, leave_failed) refl

-- If the body of a transaction raises and none of the callbacks that it registered is critical, then
-- the transaction raises the body's error, after every recovery callback has run on the rolled-back
-- world, then every cleanup callback, each in its order, whichever of them raise.
pub failure_runs_callbacks :
    {World : Type 0} (body : World → Body World) (w : World) (error : String)
    (info : SessionInfo World)
    → body w ≡ raises error info
    → HasNoCritical info.rollback_callbacks
    → HasNoCritical info.cleanup_callbacks
    → transaction_boundary World body w ≡ (
      some error,
      run_all
          (sorted World info.cleanup_callbacks)
          (run_all (sorted World info.rollback_callbacks) w),
    )
unfolding transaction_boundary
failure_runs_callbacks {World} body w error info e h k =
    rw (e, transaction_boundary) (leave_failed_calm error info w h k)
