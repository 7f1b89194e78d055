-- ===== src/Workflows/Mappings/Validated.antt =====
-- workflows/mappings.py: a validated contract, and the run of its step.
use anytoolai_platform.Prelude.{String, Bool, Option, List, [], ◌∷◌, ◌≡◌, sym, ap, ◌∙◌}
use anytoolai_platform.Json.{Json, text, empty}
use anytoolai_platform.Json.Dict.{is_true}
use anytoolai_platform.Workflows.Errors.{
  mapping_resolution, source_path_absent, condition_evaluation, step_contract_invalid, index_error,
  Outcome, done, failed, >>=-eq-done, fail_if,
}
use anytoolai_platform.Workflows.Mappings.{Mapping, Sources}
use anytoolai_platform.Workflows.Mappings.Resolution.{
  parse_source_path, resolve_step_input, resolve_when_condition, reject_literal_when_reference,
  as_condition,
}
use anytoolai_platform.Workflows.Mappings.Contracts.{
  validate_input_entries, validate_input_mapping, require_mapping_of_strings, validate_parts,
  validate_step_contract, validate_when, validate_retry_count, validate_output_mapping,
  as_contract_error,
}
use anytoolai_platform.Workflows.Mappings.Progress.{
  IsUnmet, IsDataError, not_an_object, no_such_key, Only, OnlyUnmet-resolve_reference,
  OnlyData-resolve_entries, HaveOutputs, validated-Reachable,
}
use anytoolai_platform.Workflows.Mappings.Targets.{done_inj}
use anytoolai_platform.Prelude.Texts.{is_blank}

as_contract_error-eq-done :
    (m : Outcome (Unit {0})) {u : Unit {0}} → as_contract_error m ≡ done u → m ≡ done u
unfolding as_contract_error
as_contract_error-eq-done (done u) h = h
as_contract_error-eq-done (failed (mapping_resolution m)) h = cc
as_contract_error-eq-done (failed (source_path_absent m)) h = cc
as_contract_error-eq-done (failed (condition_evaluation m)) h = cc
as_contract_error-eq-done (failed (step_contract_invalid m)) h = cc
as_contract_error-eq-done (failed (index_error m)) h = cc

-- A condition that resolves, or whose path meets no value.
pub data IsCondition : Outcome Bool → Type 0 where
  holds : (b : Bool) → IsCondition (done b)
  unresolved :
      IsCondition (failed (condition_evaluation "workflow source path could not be resolved"))

IsCondition-as_condition : (o : Outcome Json) → Only IsUnmet o → IsCondition (as_condition o)
unfolding as_condition
IsCondition-as_condition (done v) h = holds (is_true v)
IsCondition-as_condition (failed _) not_an_object = unresolved
IsCondition-as_condition (failed _) no_such_key = unresolved

module _ (parse_json : String → Option Json) where
  pub validated_parts :
      (step_id : String) (prior : List String) (input output when retry_count : Json) {u : Unit {0}}
      → validate_step_contract parse_json step_id prior input output when retry_count ≡ done u
      → (validate_input_mapping parse_json prior input ≡ done tt)
        × (validate_output_mapping parse_json step_id output ≡ done tt)
        × (validate_when parse_json prior when ≡ done tt)
  unfolding validate_step_contract validate_parts
  validated_parts step_id prior input output when retry_count h =
      let k =
        as_contract_error-eq-done
          (validate_parts parse_json step_id prior input output when retry_count) h in
      let (_, _, h₁) = >>=-eq-done (validate_retry_count retry_count) _ k in
      let (_, e, h₂) = >>=-eq-done (validate_input_mapping parse_json prior input) _ h₁ in
      let (_, f, h₃) = >>=-eq-done (validate_output_mapping parse_json step_id output) _ h₂ in
      (e, f, h₃)

  OnlyData-resolve_step_input :
      (prior : List String) (es : Mapping) (s : Sources)
      → HaveOutputs prior s.step_outputs
      → validate_input_entries parse_json prior es ≡ done tt
      → Only IsDataError (resolve_step_input parse_json es s)
  unfolding resolve_step_input
  OnlyData-resolve_step_input prior [] s outputs h = tt
  OnlyData-resolve_step_input prior (e ∷ es) s outputs h =
      OnlyData-resolve_entries parse_json prior (e ∷ es) s empty outputs h

  -- If a step's contract passed validation and every earlier step has an output, then resolving the
  -- step's input either returns or fails for the data alone: a source path that meets no value, or
  -- a target path that meets a value that is no object.
  pub validated_input :
      (step_id : String) (prior : List String) (input output when retry_count : Json) (es : Mapping)
      (s : Sources) {u : Unit {0}}
      → validate_step_contract parse_json step_id prior input output when retry_count ≡ done u
      → require_mapping_of_strings input ≡ done es
      → HaveOutputs prior s.step_outputs
      → Only IsDataError (resolve_step_input parse_json es s)
  unfolding validate_input_mapping
  validated_input step_id prior input output when retry_count es s h m outputs =
      let (v, _, _) = validated_parts step_id prior input output when retry_count h in
      let (fs, e, f) = >>=-eq-done (require_mapping_of_strings input) _ v in
      OnlyData-resolve_step_input prior es s outputs
        (ap (validate_input_entries parse_json prior) (done_inj (sym m ∙ e)) ∙ f)

  -- If a step's contract with a condition passed validation and every earlier step has an output,
  -- then the condition resolves to a truth value or raises the condition error of a path that meets
  -- no value.
  pub validated-IsCondition :
      (step_id : String) (prior : List String) (input output retry_count : Json) (when : String)
      (s : Sources) {u : Unit {0}}
      → validate_step_contract parse_json step_id prior input output (text when) retry_count
        ≡ done u
      → HaveOutputs prior s.step_outputs
      → IsCondition (resolve_when_condition parse_json when s)
  unfolding validate_when resolve_when_condition
  validated-IsCondition step_id prior input output retry_count when s h outputs =
      let (_, _, w) = validated_parts step_id prior input output (text when) retry_count h in
      let (_, _, h₁) = >>=-eq-done (fail_if (is_blank when) _) _ w in
      let (r, e, h₂) = >>=-eq-done (parse_source_path parse_json when) _ h₁ in
      let (_, f, h₃) = >>=-eq-done (reject_literal_when_reference r) _ h₂ in
      let reached = validated-Reachable prior r s outputs h₃ in
      rw (e, f, resolve_when_condition)
        (IsCondition-as_condition _ (OnlyUnmet-resolve_reference r s reached))
