-- ===== src/Transactions/Order.antt =====
-- The order in which the callbacks of a transaction run, against that of their registration.
use anytoolai_platform.Prelude.{
  ℕ, ◌+◌, ◌<◌, ◌≤◌, true, false, ◌≡◌, refl, sym, ap, ◌∙◌, List, [], ◌∷◌, ◌++◌, arith, eqb, ◌⊎◌,
  Bool-cases, inl, inr, if◌then◌else◌,
}
use anytoolai_platform.Transactions.{
  RollbackRecoveryPhase, quota_exhaustion, artifact_rows, provider_rows, action_rows,
  atom_lab_links, workflow_rows, workflow_events, action_events, provider_events, artifact_events,
  phase_value, Registered, key_leb, place, sorted,
}
use anytoolai_platform.Transactions.Registration.{
  phases, Call, recovers, cleans, register_all, none_registered, phase_by_phase, cleanups,
  callbacks, recovery_rows, cleanup_rows, registered_rows, rows_in, rows_by, rows_by-none,
  callbacks-rows_by,
}

-- Each phase of the list comes later.
abbrev IsAbove : ℕ → List RollbackRecoveryPhase → Type 0
IsAbove v [] = Unit
IsAbove v (p ∷ ps) = (v < phase_value p) × IsAbove v ps

abbrev IsIncreasing : List RollbackRecoveryPhase → Type 0
IsIncreasing [] = Unit
IsIncreasing (p ∷ ps) = IsAbove (phase_value p) ps × IsIncreasing ps

abbrev IsListed : ℕ → List RollbackRecoveryPhase → Type 0
IsListed v [] = ⊥
IsListed v (p ∷ ps) = (v ≡ phase_value p) ⊎ IsListed v ps

listed_above : (u v : ℕ) (ps : List RollbackRecoveryPhase) → IsAbove u ps → IsListed v ps → u < v
listed_above u v [] h m = absurd m
listed_above u v (p ∷ ps) (h, hs) (inl e) = omega (arith, e)
listed_above u v (p ∷ ps) (h, hs) (inr m) = listed_above u v ps hs m

phases-IsIncreasing : IsIncreasing phases
phases-IsIncreasing = ground arith

phases-IsListed : (p : RollbackRecoveryPhase) → IsListed (phase_value p) phases
phases-IsListed quota_exhaustion = inl refl
phases-IsListed artifact_rows = inr (inl refl)
phases-IsListed provider_rows = inr (inr (inl refl))
phases-IsListed action_rows = inr (inr (inr (inl refl)))
phases-IsListed atom_lab_links = inr (inr (inr (inr (inl refl))))
phases-IsListed workflow_rows = inr (inr (inr (inr (inr (inl refl)))))
phases-IsListed workflow_events = inr (inr (inr (inr (inr (inr (inl refl))))))
phases-IsListed action_events = inr (inr (inr (inr (inr (inr (inr (inl refl)))))))
phases-IsListed provider_events = inr (inr (inr (inr (inr (inr (inr (inr (inl refl))))))))
phases-IsListed artifact_events = inr (inr (inr (inr (inr (inr (inr (inr (inr (inl refl)))))))))

module _ {World : Type 0} where
  -- Of each row: it has a later order number, and is of this phase or of a later one.
  abbrev IsAfter : ℕ → List (Registered World) → Type 0
  IsAfter n [] = Unit
  IsAfter n (r ∷ rs) = (n ≤ r.order) × IsAfter n rs

  abbrev HasPhase : ℕ → List (Registered World) → Type 0
  HasPhase v [] = Unit
  HasPhase v (r ∷ rs) = (r.phase ≡ v) × HasPhase v rs

  abbrev NotBefore : Registered World → List (Registered World) → Type 0
  NotBefore r [] = Unit
  NotBefore r (x ∷ xs) = (key_leb World r x ≡ true) × NotBefore r xs

  NotBefore-append :
      (r : Registered World) (xs ys : List (Registered World))
      → NotBefore r xs
      → NotBefore r ys
      → NotBefore r (xs ++ ys)
  NotBefore-append r [] ys h k = k
  NotBefore-append r (x ∷ xs) ys (e, h) k = (e, NotBefore-append r xs ys h k)

  place-first :
      (r : Registered World) (xs : List (Registered World))
      → NotBefore r xs
      → place World r xs ≡ r ∷ xs
  unfolding place
  place-first r [] h = refl
  place-first r (x ∷ xs) (h, k) = rw (h, if◌then◌else◌) refl

  key_later :
      (r x : Registered World) (v : ℕ) → v < r.phase → x.phase ≡ v → key_leb World r x ≡ false
  unfolding key_leb
  key_later r x v h e = ground arith

  key_not_before :
      (r x : Registered World) (v : ℕ)
      → r.phase ≤ v
      → eqb x.phase v ≡ true
      → r.order ≤ x.order
      → key_leb World r x ≡ true
  unfolding key_leb
  key_not_before r x v h e k = ground arith

  place-past :
      (r : Registered World) (v : ℕ) (xs ys : List (Registered World))
      → v < r.phase
      → HasPhase v xs
      → place World r (xs ++ ys) ≡ xs ++ place World r ys
  unfolding place
  place-past r v [] ys h k = refl
  place-past r v (x ∷ xs) ys h (e, k) =
      rw (key_later r x v h e, if◌then◌else◌) (ap (λ l. x ∷ l) (place-past r v xs ys h k))

  rows_in-HasPhase :
      (p : RollbackRecoveryPhase) (rs : List (Registered World))
      → HasPhase (phase_value p) (rows_in p rs)
  unfolding rows_in
  rows_in-HasPhase p [] = tt
  rows_in-HasPhase p (r ∷ rs) = elim (Bool-cases (eqb r.phase (phase_value p))) [
    | inl same ↦ rw (same, if◌then◌else◌) (ground arith, rows_in-HasPhase p rs)
    | inr other ↦ rw (other, if◌then◌else◌) (rows_in-HasPhase p rs)
  ]

  rows_in-NotBefore :
      (r : Registered World) (p : RollbackRecoveryPhase) (rs : List (Registered World))
      → r.phase ≤ phase_value p
      → IsAfter r.order rs
      → NotBefore r (rows_in p rs)
  unfolding rows_in
  rows_in-NotBefore r p [] h k = tt
  rows_in-NotBefore r p (x ∷ rs) h (o, k) = elim (Bool-cases (eqb x.phase (phase_value p))) [
    | inl same ↦
        rw (same, if◌then◌else◌)
          (key_not_before r x (phase_value p) h same o, rows_in-NotBefore r p rs h k)
    | inr other ↦ rw (other, if◌then◌else◌) (rows_in-NotBefore r p rs h k)
  ]

  rows_by-NotBefore :
      (r : Registered World) (ps : List RollbackRecoveryPhase) (rs : List (Registered World))
      → IsAbove r.phase ps
      → IsAfter r.order rs
      → NotBefore r (rows_by ps rs)
  unfolding rows_by
  rows_by-NotBefore r [] rs h k = tt
  rows_by-NotBefore r (p ∷ ps) rs (h, hs) k =
      NotBefore-append r (rows_in p rs) (rows_by ps rs) (rows_in-NotBefore r p rs (omega arith) k)
        (rows_by-NotBefore r ps rs hs k)

  -- A row of none of the phases.
  rows_by-skipped :
      (r : Registered World) (ps : List RollbackRecoveryPhase) (rs : List (Registered World))
      → IsAbove r.phase ps
      → rows_by ps (r ∷ rs) ≡ rows_by ps rs
  unfolding rows_by rows_in
  rows_by-skipped r [] rs h = refl
  rows_by-skipped r (p ∷ ps) rs (h, hs) =
      let other : eqb r.phase (phase_value p) ≡ false = ground arith in
      rw (other, if◌then◌else◌, rows_by-skipped r ps rs hs) refl

  -- A row with the least order number is placed where its phase begins.
  place-rows_by :
      (r : Registered World) (ps : List RollbackRecoveryPhase) (rs : List (Registered World))
      → IsIncreasing ps
      → IsListed r.phase ps
      → IsAfter r.order rs
      → place World r (rows_by ps rs) ≡ rows_by ps (r ∷ rs)
  unfolding rows_by rows_in
  place-rows_by r [] rs up m k = absurd m
  place-rows_by r (p ∷ ps) rs (first, up) (inl e) k =
      let same : eqb r.phase (phase_value p) ≡ true = ground arith in
      let later : IsAbove r.phase ps = rw e first in
      place-first r (rows_in p rs ++ rows_by ps rs) (
        NotBefore-append r (rows_in p rs) (rows_by ps rs)
          (rows_in-NotBefore r p rs (omega (arith, e)) k) (rows_by-NotBefore r ps rs later k))
      ∙ rw (same, if◌then◌else◌, rows_by-skipped r ps rs later) refl
  place-rows_by r (p ∷ ps) rs (first, up) (inr m) k =
      let past : phase_value p < r.phase = listed_above (phase_value p) r.phase ps first m in
      let other : eqb r.phase (phase_value p) ≡ false = ground arith in
      place-past r (phase_value p) (rows_in p rs) (rows_by ps rs) past (rows_in-HasPhase p rs)
      ∙ rw (other, if◌then◌else◌) (ap (λ l. rows_in p rs ++ l) (place-rows_by r ps rs up m k))

  recovery_rows-IsAfter :
      (m n : ℕ) (calls : List (Call World)) → m ≤ n → IsAfter m (recovery_rows n calls)
  unfolding recovery_rows
  recovery_rows-IsAfter m n [] h = tt
  recovery_rows-IsAfter m n (recovers f p critical ∷ calls) h =
      (h, recovery_rows-IsAfter m (n + 1) calls (omega arith))
  recovery_rows-IsAfter m n (cleans f critical ∷ calls) h = recovery_rows-IsAfter m n calls h

  cleanup_rows-NotBefore :
      (r : Registered World) (n : ℕ) (calls : List (Call World))
      → r.phase ≡ 0
      → r.order ≤ n
      → NotBefore r (cleanup_rows n calls)
  unfolding cleanup_rows
  cleanup_rows-NotBefore r n [] e h = tt
  cleanup_rows-NotBefore r n (recovers f p critical ∷ calls) e h =
      cleanup_rows-NotBefore r n calls e h
  cleanup_rows-NotBefore r n (cleans f critical ∷ calls) e h = (
    key_not_before r (record { phase = 0; order = n; callback = f; critical = critical }) 0
        (omega (arith, e)) refl h,
    cleanup_rows-NotBefore r (n + 1) calls e (omega arith),
  )

  sorted-recovery_rows :
      (calls : List (Call World)) (n : ℕ)
      → sorted World (recovery_rows n calls) ≡ rows_by phases (recovery_rows n calls)
  unfolding sorted recovery_rows
  sorted-recovery_rows [] n = rows_by-none phases
  sorted-recovery_rows (recovers f p critical ∷ calls) n = rw (sorted-recovery_rows calls (n + 1)) (
      place-rows_by (record { phase = phase_value p; order = n; callback = f; critical = critical })
        phases (recovery_rows (n + 1) calls) phases-IsIncreasing (phases-IsListed p)
        (recovery_rows-IsAfter n (n + 1) calls (omega arith)))
  sorted-recovery_rows (cleans f critical ∷ calls) n = sorted-recovery_rows calls n

  sorted-cleanup_rows :
      (calls : List (Call World)) (n : ℕ)
      → (callbacks (sorted World (cleanup_rows n calls)) ≡ cleanups calls)
        × (sorted World (cleanup_rows n calls) ≡ cleanup_rows n calls)
  unfolding sorted cleanup_rows callbacks cleanups
  sorted-cleanup_rows [] n = (refl, refl)
  sorted-cleanup_rows (recovers f p critical ∷ calls) n = sorted-cleanup_rows calls n
  sorted-cleanup_rows (cleans f critical ∷ calls) n =
      let (a, b) = sorted-cleanup_rows calls (n + 1) in
      let row : Registered World = record {
        phase = 0;
        order = n;
        callback = f;
        critical = critical;
      } in
      let placed =
        place-first row (cleanup_rows (n + 1) calls)
          (cleanup_rows-NotBefore row (n + 1) calls refl (omega arith)) in
      (rw (b, placed) (ap (λ l. f ∷ l) (sym (ap callbacks b) ∙ a)), rw b placed)

-- After any sequence of registrations, of recovery and cleanup callbacks interleaved, the sorted
-- recovery callbacks are those of the ten phases, one phase after the other from quota_exhaustion
-- to artifact_events, each in the order of its registrations, and the sorted cleanup callbacks are
-- in the order of theirs.
pub run_phase_by_phase :
    {World : Type 0} (calls : List (Call World))
    → (callbacks (sorted World (register_all calls none_registered).rollback_callbacks)
        ≡ phase_by_phase phases calls)
      × (callbacks (sorted World (register_all calls none_registered).cleanup_callbacks)
          ≡ cleanups calls)
run_phase_by_phase {World} calls =
    let (a, b) = registered_rows calls none_registered in
    (
      rw (a, sorted-recovery_rows calls 0) (callbacks-rows_by phases calls 0),
      rw b (sorted-cleanup_rows calls 0).0,
    )
