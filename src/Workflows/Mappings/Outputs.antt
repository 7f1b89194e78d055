-- ===== src/Workflows/Mappings/Outputs.antt =====
-- workflows/mappings.py: `apply_output_mapping`, of a validated contract and in any case.
use anytoolai_platform.Prelude.{
  String, true, false, not, Option, none, some, List, [], ◌∷◌, ◌≡◌, sym, ap, ◌∙◌, eq_iff, arith,
  opt_eq,
}
use anytoolai_platform.Json.{Json, Fields, empty}
use anytoolai_platform.Json.Dict.{lookup, insert, lookup-insert_self}
use anytoolai_platform.Workflows.Errors.{MappingError, Outcome, done, failed, >>=-eq-done, fail_if}
use anytoolai_platform.Workflows.Mappings.{
  SourceRoot, literal, scenario_input, context, step_output, WorkflowSourcePath, Mapping, Sources,
  set_target_value, parse_context_target_path, resolve_reference,
}
use anytoolai_platform.Workflows.Mappings.Resolution.{
  parse_source_path, is_output_source, output_value, apply_entries, apply_output_mapping,
}
use anytoolai_platform.Workflows.Mappings.Contracts.{
  require_mapping_of_strings, validate_step_contract, validate_output_mapping,
  validate_output_entries,
}
use anytoolai_platform.Workflows.Mappings.Progress.{
  IsDataError, Only, Only-bind, Only-unmet, OnlyData-set_target_value, OnlyUnmet-resolve_reference,
  Reachable,
}
use anytoolai_platform.Workflows.Mappings.Targets.{done_inj}
use anytoolai_platform.Workflows.Mappings.Roots.{parse_context_target_path-inv}
use anytoolai_platform.Workflows.Mappings.Validated.{validated_parts}

output_source-Reachable :
    (step_id : String) (v : Json) (r : WorkflowSourcePath) (s : Sources)
    → lookup step_id s.step_outputs ≡ some v
    → is_output_source step_id r ≡ true
    → Reachable r.root r.step_id s
unfolding is_output_source
output_source-Reachable step_id v r s e h = go r.root r.step_id h
  where
    go :
        (root : SourceRoot) (k : Option String)
        → elim root [
          | literal ↦ true
          | scenario_input ↦ true
          | context ↦ false
          | step_output ↦ opt_eq k (some step_id)
        ]
          ≡ true
        → Reachable root k s
    go literal k h = tt
    go scenario_input k h = tt
    go context k h = tt
    go step_output none h = cc
    go step_output (some k) h = (v, ap (λ x. lookup x s.step_outputs) ((eq_iff k step_id).0 h) ∙ e)

outputs_source :
    (step_id : String) (r : WorkflowSourcePath) (e : MappingError) {u : Unit {0}}
    → fail_if (not (is_output_source step_id r)) e ≡ done u
    → is_output_source step_id r ≡ true
outputs_source step_id r e h = ground arith

module _ (parse_json : String → Option Json) where
  OnlyData-output_value :
      (step_id t p : String) (q : List String) (v : Json) (r : WorkflowSourcePath) (s : Sources)
      → lookup step_id s.step_outputs ≡ some v
      → parse_context_target_path t ≡ done q
      → parse_source_path parse_json p ≡ done r
      → is_output_source step_id r ≡ true
      → Only IsDataError (output_value parse_json step_id t p s)
  unfolding output_value
  OnlyData-output_value step_id t p q v r s e f g h =
      let reached = output_source-Reachable step_id v r s e h in
      let (x, path, c, _, _) = parse_context_target_path-inv t q f in
      rw (g, output_value, h)
        (Only-bind IsDataError (resolve_reference r s) _
          (Only-unmet _ (OnlyUnmet-resolve_reference r s reached))
          (λ value _.
            rw (f, c)
              (Only-bind IsDataError (set_target_value s.context (x ∷ path) value) _
                (OnlyData-set_target_value s.context x path value) (λ written _. tt))))

  OnlyData-apply_entries :
      (step_id : String) (v : Json) (es : Mapping) (s : Sources) (applied : Fields) {u : Unit {0}}
      → lookup step_id s.step_outputs ≡ some v
      → validate_output_entries parse_json step_id es ≡ done u
      → Only IsDataError ((apply_entries parse_json step_id es s applied).0)
  unfolding apply_entries validate_output_entries
  OnlyData-apply_entries step_id v [] s applied e h = tt
  OnlyData-apply_entries step_id v ((t, p) ∷ es) s applied e h =
      let (q, f, h₁) = >>=-eq-done (parse_context_target_path t) _ h in
      let (r, g, h₂) = >>=-eq-done (parse_source_path parse_json p) _ h₁ in
      let (_, k, h₃) = >>=-eq-done (fail_if (not (is_output_source step_id r)) _) _ h₂ in
      let source = outputs_source step_id r _ k in
      go (output_value parse_json step_id t p s)
        (OnlyData-output_value step_id t p q v r s e f g source)
        (λ value written.
          OnlyData-apply_entries step_id v es (record s { context = written })
            (insert t value applied) e h₃)
    where
      go :
          (o : Outcome (Json × Fields))
          → Only IsDataError o
          → ((value : Json) (written : Fields)
              → Only IsDataError (
                  (apply_entries parse_json step_id es
                    (record s { context = written })
                    (insert t value applied)).0))
          → let next : Outcome Fields × Fields = elim o [
            | failed e ↦ (failed e, s.context)
            | done (value, written) ↦
                apply_entries parse_json step_id es
                  (record s { context = written })
                  (insert t value applied)
          ] in
            Only IsDataError next.0
      go (failed e) h k = h
      go (done (value, written)) h k = k value written

  -- If a step's contract passed validation, then applying its output mapping to any output, context
  -- and scenario input either returns or fails for the data alone: a source path that meets no
  -- value, or a target path that meets a value that is no object.
  pub validated_output :
      (step_id : String) (prior : List String) (input output when retry_count : Json) (es : Mapping)
      (v : Json) (before : Fields) (scenario_in : Option Fields) {u : Unit {0}}
      → validate_step_contract parse_json step_id prior input output when retry_count ≡ done u
      → require_mapping_of_strings output ≡ done es
      → Only IsDataError ((apply_output_mapping parse_json es step_id v before scenario_in).0)
  unfolding validate_output_mapping apply_output_mapping
  validated_output step_id prior input output when retry_count es v before scenario_in h m =
      let (_, o, _) = validated_parts parse_json step_id prior input output when retry_count h in
      let (fs, e, f) = >>=-eq-done (require_mapping_of_strings output) _ o in
      go es (ap (validate_output_entries parse_json step_id) (done_inj (sym m ∙ e)) ∙ f)
    where
      go :
          (es : Mapping)
          → validate_output_entries parse_json step_id es ≡ done tt
          → Only IsDataError ((apply_output_mapping parse_json es step_id v before scenario_in).0)
      go [] h = tt
      go (e ∷ es) h =
          OnlyData-apply_entries step_id v (e ∷ es) _ empty (lookup-insert_self step_id v empty) h
