-- ===== src/Workflows/Mappings/Progress.antt =====
-- workflows/mappings.py: the resolution of a step whose contract was validated.
use anytoolai_platform.Prelude.{
  String, Bool, true, false, not, Option, none, some, List, [], ◌∷◌, ◌≡◌, refl, sym, ◌∙◌, arith,
}
use anytoolai_platform.Json.{
  Json, null, boolean, integer, negative, float, text, array, object, Fields,
}
use anytoolai_platform.Json.Dict.{lookup}
use anytoolai_platform.Workflows.Errors.{
  MappingError, mapping_resolution, source_path_absent, condition_evaluation, step_contract_invalid,
  index_error, Outcome, done, failed, >>=-eq-done, ◌>>=◌, fail_if,
}
use anytoolai_platform.Workflows.Mappings.{
  SourceRoot, literal, scenario_input, context, step_output, WorkflowSourcePath, Mapping, Sources,
  walk_value, child, set_target_value, parse_target_path, relative_parts, require_plain_dotted_path,
  root_value, resolve_reference,
}
use anytoolai_platform.Workflows.Mappings.Resolution.{
  parse_source_path, resolve_source_path, split_optional_source_path, if_present, input_value,
  set_input, resolve_entries,
}
use anytoolai_platform.Prelude.Texts.{split}
use anytoolai_platform.Workflows.Mappings.Targets.{done_inj}
use anytoolai_platform.Workflows.Mappings.Contracts.{
  is_prior, holds_member, validate_step_reference, validate_input_entries,
}

-- A source path that meets no value in the data of a run.
pub data IsUnmet : MappingError → Type 0 where
  not_an_object : IsUnmet (mapping_resolution "workflow source path could not be resolved")
  no_such_key : IsUnmet (source_path_absent "workflow source path could not be resolved")

-- The errors that only the data of a run can cause: that, and a target path that meets a value that
-- is no dict.
pub data IsDataError : MappingError → Type 0 where
  unmet : {e : MappingError} → IsUnmet e → IsDataError e
  collides :
      IsDataError (mapping_resolution "workflow target path collides with a non-object value")

-- It returns, or fails with such an error.
abbrev pub Only : {A : Type 0} → (MappingError → Type 0) → Outcome A → Type 0
Only P (done a) = Unit
Only P (failed e) = P e

pub Only-bind :
    {A B : Type 0} (P : MappingError → Type 0) (m : Outcome A) (f : A → Outcome B)
    → Only P m
    → ((a : A) → m ≡ done a → Only P (f a))
    → Only P (m >>= f)
Only-bind P (done a) f h k = k a refl
Only-bind P (failed e) f h k = h

pub Only-unmet : {A : Type 0} (m : Outcome A) → Only IsUnmet m → Only IsDataError m
Only-unmet (done a) h = tt
Only-unmet (failed e) h = unmet h

pub OnlyUnmet-walk_value : (v : Json) (p : List String) → Only IsUnmet (walk_value v p)
unfolding walk_value
OnlyUnmet-walk_value v [] = tt
OnlyUnmet-walk_value (object d) (x ∷ p) = go (lookup x d) (λ v. OnlyUnmet-walk_value v p)
  where
    go :
        (o : Option Json)
        → ((v : Json) → Only IsUnmet (walk_value v p))
        → Only IsUnmet (elim o [
          | none ↦ failed (source_path_absent "workflow source path could not be resolved")
          | some v ↦ walk_value v p
        ])
    go none k = no_such_key
    go (some v) k = k v
OnlyUnmet-walk_value null (x ∷ p) = not_an_object
OnlyUnmet-walk_value (boolean b) (x ∷ p) = not_an_object
OnlyUnmet-walk_value (integer n) (x ∷ p) = not_an_object
OnlyUnmet-walk_value (negative n) (x ∷ p) = not_an_object
OnlyUnmet-walk_value (float t) (x ∷ p) = not_an_object
OnlyUnmet-walk_value (text t) (x ∷ p) = not_an_object
OnlyUnmet-walk_value (array xs) (x ∷ p) = not_an_object

OnlyData-child : (o : Option Json) → Only IsDataError (child o)
unfolding child
OnlyData-child none = tt
OnlyData-child (some null) = tt
OnlyData-child (some (object d)) = tt
OnlyData-child (some (boolean b)) = collides
OnlyData-child (some (integer n)) = collides
OnlyData-child (some (negative n)) = collides
OnlyData-child (some (float t)) = collides
OnlyData-child (some (text t)) = collides
OnlyData-child (some (array xs)) = collides

pub OnlyData-set_target_value :
    (d : Fields) (x : String) (p : List String) (v : Json)
    → Only IsDataError (set_target_value d (x ∷ p) v)
unfolding set_target_value
OnlyData-set_target_value d x [] v = tt
OnlyData-set_target_value d x (y ∷ p) v =
    Only-bind IsDataError (child (lookup x d)) _ (OnlyData-child (lookup x d)) (λ current _.
      Only-bind IsDataError (set_target_value current (y ∷ p) v) _
        (OnlyData-set_target_value current y p v) (λ below _. tt))

-- Every one of the steps has an output.
abbrev pub HaveOutputs : List String → Fields → Type 0
HaveOutputs prior outputs =
    (step_id : String)
    → holds_member prior step_id ≡ true
    → (v : Json) × (lookup step_id outputs ≡ some v)

-- The reference is no step's output, or that of a step that has one.
abbrev pub Reachable : SourceRoot → Option String → Sources → Type 0
Reachable step_output none s = ⊥
Reachable step_output (some k) s = (v : Json) × (lookup k s.step_outputs ≡ some v)
Reachable _ step_id s = Unit

root_value-found :
    (k : String) (v : Json) (s : Sources)
    → lookup k s.step_outputs ≡ some v
    → root_value step_output (some k) s ≡ done v
unfolding root_value
root_value-found k v s e = rw (e, root_value) refl

pub OnlyUnmet-resolve_reference :
    (r : WorkflowSourcePath) (s : Sources)
    → Reachable r.root r.step_id s
    → Only IsUnmet (resolve_reference r s)
unfolding resolve_reference root_value
OnlyUnmet-resolve_reference r s h = go r.root r.step_id h
  where
    go :
        (root : SourceRoot) (step_id : Option String)
        → Reachable root step_id s
        → Only IsUnmet (elim root [
          | literal ↦ done r.literal_value
          | x ↦ root_value x step_id s >>= λ current. walk_value current r.path
        ])
    go literal k h = tt
    go scenario_input k h = OnlyUnmet-walk_value (object s.scenario_input) r.path
    go context k h = OnlyUnmet-walk_value (object s.context) r.path
    go step_output none h = absurd h
    go step_output (some k) (v, e) = rw (root_value-found k v s e) (OnlyUnmet-walk_value v r.path)

pub validated-Reachable :
    (prior : List String) (r : WorkflowSourcePath) (s : Sources) {u : Unit {0}}
    → HaveOutputs prior s.step_outputs
    → validate_step_reference prior r ≡ done u
    → Reachable r.root r.step_id s
unfolding validate_step_reference is_prior
validated-Reachable prior r s outputs h = go r.root r.step_id h
  where
    go :
        (root : SourceRoot) (step_id : Option String) {u : Unit {0}}
        → elim root [
          | step_output ↦
              fail_if (not (is_prior prior step_id)) (
                mapping_resolution "workflow step references must point to a previous step output.")
          | _ ↦ done tt
        ]
          ≡ done u
        → Reachable root step_id s
    go literal k h = tt
    go scenario_input k h = tt
    go context k h = tt
    go step_output none h = cc
    go step_output (some k) h = outputs k (ground arith)

relative_parts-cons :
    (ps q : List String)
    → relative_parts ps ≡ done q
    → (x : String) × (p : List String) × (q ≡ x ∷ p)
unfolding relative_parts
relative_parts-cons [] q h = cc
relative_parts-cons (p ∷ ps) q h = (p, ps, ground arith)

pub parse_target_path-cons :
    (t : String) (q : List String)
    → parse_target_path t ≡ done q
    → (x : String) × (p : List String) × (q ≡ x ∷ p)
unfolding parse_target_path
parse_target_path-cons t q h =
    let (_, _, h₁) = >>=-eq-done (require_plain_dotted_path t) _ h in
    relative_parts-cons (split 46 t) q h₁

OnlyData-if_present :
    (b : Bool) (o : Outcome Json) → Only IsDataError o → Only IsDataError (if_present b o)
unfolding if_present
OnlyData-if_present b (done v) h = tt
OnlyData-if_present true (failed (source_path_absent m)) h = tt
OnlyData-if_present false (failed (source_path_absent m)) h = h
OnlyData-if_present b (failed (mapping_resolution m)) h = h
OnlyData-if_present b (failed (condition_evaluation m)) h = h
OnlyData-if_present b (failed (step_contract_invalid m)) h = h
OnlyData-if_present b (failed (index_error m)) h = h

module _ (parse_json : String → Option Json) where
  pub OnlyUnmet-resolve_source_path :
      (p : String) (r : WorkflowSourcePath) (s : Sources)
      → parse_source_path parse_json p ≡ done r
      → Reachable r.root r.step_id s
      → Only IsUnmet (resolve_source_path parse_json p s)
  unfolding resolve_source_path
  OnlyUnmet-resolve_source_path p r s e h =
      Only-bind IsUnmet (parse_source_path parse_json p) _ (rw (e, Only) tt)
        (λ x c. rw (done_inj (sym c ∙ e)) (OnlyUnmet-resolve_reference r s h))

  OnlyData-input_value :
      (p : String) (r : WorkflowSourcePath) (s : Sources)
      → parse_source_path parse_json ((split_optional_source_path p).1) ≡ done r
      → Reachable r.root r.step_id s
      → Only IsDataError (input_value parse_json p s)
  unfolding input_value resolve_source_path
  OnlyData-input_value p r s e h =
      OnlyData-if_present (split_optional_source_path p).0 _
        (Only-unmet _ (OnlyUnmet-resolve_source_path (split_optional_source_path p).1 r s e h))

  OnlyData-set_input :
      (d : Fields) (t : String) (q : List String) (o : Option Json)
      → parse_target_path t ≡ done q
      → Only IsDataError (set_input d t o)
  unfolding set_input
  OnlyData-set_input d t q none e = tt
  OnlyData-set_input d t q (some v) e =
      Only-bind IsDataError (parse_target_path t) _ (rw (e, Only) tt) (λ path h.
        let (x, p, c) = parse_target_path-cons t path h in
        rw (c) (OnlyData-set_target_value d x p v))

  pub OnlyData-resolve_entries :
      (prior : List String) (es : Mapping) (s : Sources) (d : Fields) {u : Unit {0}}
      → HaveOutputs prior s.step_outputs
      → validate_input_entries parse_json prior es ≡ done u
      → Only IsDataError (resolve_entries parse_json es s d)
  unfolding resolve_entries validate_input_entries
  OnlyData-resolve_entries prior [] s d outputs h = tt
  OnlyData-resolve_entries prior ((t, p) ∷ es) s d outputs h =
      let (q, e, h₁) = >>=-eq-done (parse_target_path t) _ h in
      let (r, e₁, h₂) = >>=-eq-done (parse_source_path parse_json _) _ h₁ in
      let (_, e₂, h₃) = >>=-eq-done (validate_step_reference prior r) _ h₂ in
      let reached = validated-Reachable prior r s outputs e₂ in
      Only-bind IsDataError (input_value parse_json p s) _ (OnlyData-input_value p r s e₁ reached)
        (λ v _.
          Only-bind IsDataError (set_input d t v) _ (OnlyData-set_input d t q v e)
            (λ m _. OnlyData-resolve_entries prior es s m outputs h₃))
