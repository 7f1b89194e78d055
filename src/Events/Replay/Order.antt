-- ===== src/Events/Replay/Order.antt =====
-- events/replay.py: `ReplayTimestampSequencer`, over a sequence of calls.
use anytoolai_platform.Prelude.{
  ℕ, suc, ◌≤◌, ◌<◌, Option, none, some, List, [], ◌∷◌, arith, leb, ltb, if◌then◌else◌, inl, inr,
  Bool-cases,
}
use anytoolai_platform.Events.Replay.{ReplayTimestampSequencer, next, observe}

-- A call of `next` with the timestamp that is preferred, or of `observe`.
pub data SequencerCall : Type 0 where
  call_next : ℕ → SequencerCall
  call_observe : ℕ → SequencerCall

-- What is given out, with what was preferred.
unfoldable pub run_calls : List SequencerCall → ReplayTimestampSequencer → List (ℕ × ℕ)
unfolding next observe
run_calls [] q = []
run_calls (call_next t ∷ calls) q = let (given, q') = next t q in (t, given) ∷ run_calls calls q'
run_calls (call_observe t ∷ calls) q = run_calls calls (observe t q)

-- The instant is later than the sequencer's last, if it has one.
abbrev pub LaterThan : Option ℕ → ℕ → Type 0
LaterThan none t = Unit
LaterThan (some last) t = last < t

-- Each is later than the one before, and none is before what was preferred.
pub data IsCausal : Option ℕ → List (ℕ × ℕ) → Type 0 where
  nothing_given : {last : Option ℕ} → IsCausal last []
  given_later :
      {last : Option ℕ} {preferred given : ℕ} {rest : List (ℕ × ℕ)}
      → LaterThan last given
      → preferred ≤ given
      → IsCausal (some given) rest
      → IsCausal last ((preferred, given) ∷ rest)

-- The calls give out causal times, also later than an instant that no later one precedes.
IsCausal-weaken : (a b : ℕ) (l : List (ℕ × ℕ)) → a ≤ b → IsCausal (some b) l → IsCausal (some a) l
IsCausal-weaken a b _ h nothing_given = nothing_given
IsCausal-weaken a b _ h (given_later x y z) = given_later (omega arith) y z

IsCausal-forget : (a : ℕ) (l : List (ℕ × ℕ)) → IsCausal (some a) l → IsCausal none l
IsCausal-forget a _ nothing_given = nothing_given
IsCausal-forget a _ (given_later x y z) = given_later tt y z

IsCausal-from :
    (calls : List SequencerCall) (last : Option ℕ)
    → IsCausal last (run_calls calls (record { last_timestamp = last }))
unfolding run_calls next observe
IsCausal-from [] last = nothing_given
IsCausal-from (call_next t ∷ calls) none =
    given_later tt (omega arith) (IsCausal-from calls (some t))
IsCausal-from (call_next t ∷ calls) (some last) =
    given_later (ground arith) (ground arith)
      (IsCausal-from calls (some (if leb t last then suc last else t)))
IsCausal-from (call_observe t ∷ calls) none = IsCausal-forget t _ (IsCausal-from calls (some t))
IsCausal-from (call_observe t ∷ calls) (some last) = elim (Bool-cases (ltb last t)) [
  | inl e ↦
      rw (e, if◌then◌else◌) (IsCausal-weaken last t _ (ground arith) (IsCausal-from calls (some t)))
  | inr e ↦ rw (e, if◌then◌else◌) (IsCausal-from calls (some last))
]

-- From any state of the sequencer, over any sequence of its calls, each timestamp that it gives out
-- is later than the one before and than what it started from, and none is before the timestamp that
-- was preferred.
pub sequencer-IsCausal :
    (calls : List SequencerCall) (q : ReplayTimestampSequencer)
    → IsCausal q.last_timestamp (run_calls calls q)
sequencer-IsCausal calls q = IsCausal-from calls q.last_timestamp
