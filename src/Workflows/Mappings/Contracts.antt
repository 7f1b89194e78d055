-- ===== src/Workflows/Mappings/Contracts.antt =====
-- workflows/mappings.py: the validation of a step's contract, before it runs. The configuration's
-- values are JSON, so a key of a mapping is a text.
use anytoolai_platform.Prelude.{
  String, ◌==◌, Bool, false, not, ◌||◌, Option, none, some, List, [], ◌∷◌, if◌then◌else◌,
}
use anytoolai_platform.Prelude.Texts.{is_blank}
use anytoolai_platform.Json.{Json, null, integer, negative, text, object, Fields, empty, field}
use anytoolai_platform.Workflows.Errors.{
  mapping_resolution, source_path_absent, condition_evaluation, step_contract_invalid, Outcome,
  done, failed, ◌>>=◌, ◌>>◌, fail_if,
}
use anytoolai_platform.Workflows.Mappings.{
  step_output, WorkflowSourcePath, Mapping, parse_target_path, parse_context_target_path,
}
use anytoolai_platform.Workflows.Mappings.Resolution.{
  parse_source_path, split_optional_source_path, is_output_source, reject_literal_when_reference,
}

unfoldable pub validate_retry_count : Json → Outcome (Unit {0})
validate_retry_count (integer n) = done tt
validate_retry_count (negative n) =
    failed (mapping_resolution "`retry_count` must be greater than or equal to 0.")
validate_retry_count _ = failed (mapping_resolution "`retry_count` must be an integer.")

-- `x in xs`
unfoldable pub holds_member : List String → String → Bool
holds_member [] x = false
holds_member (y ∷ ys) x = y == x || holds_member ys x

-- `step_id in prior_step_ids`, where a missing identifier is in no tuple of texts
unfoldable pub is_prior : List String → Option String → Bool
unfolding holds_member
is_prior prior none = false
is_prior prior (some step_id) = holds_member prior step_id

unfoldable pub validate_step_reference : List String → WorkflowSourcePath → Outcome (Unit {0})
unfolding is_prior
validate_step_reference prior r = elim r.root [
  | step_output ↦
      fail_if (not (is_prior prior r.step_id))
        (mapping_resolution "workflow step references must point to a previous step output.")
  | _ ↦ done tt
]

-- One value of a mapping: a text that is not blank.
unfoldable pub string_value : Json → Outcome String
unfolding is_blank
string_value (text s) =
    if is_blank s
    then failed (mapping_resolution "values must be non-empty string source paths.")
    else done s
string_value _ = failed (mapping_resolution "values must be non-empty string source paths.")

unfoldable pub string_entries : Fields → Outcome Mapping
unfolding is_blank string_value
string_entries empty = done []
string_entries (field key value d) = do
  fail_if (is_blank key) (mapping_resolution "keys must be non-empty strings.")
  source ← string_value value
  rest ← string_entries d
  done ((key, source) ∷ rest)

unfoldable pub require_mapping_of_strings : Json → Outcome Mapping
unfolding string_entries
require_mapping_of_strings null = done []
require_mapping_of_strings (object d) = string_entries d
require_mapping_of_strings _ = failed (mapping_resolution "must be a mapping of string paths.")

-- `except (WorkflowMappingResolutionError, WorkflowConditionEvaluationError)`
unfoldable pub as_contract_error : Outcome (Unit {0}) → Outcome (Unit {0})
as_contract_error (failed (mapping_resolution m)) = failed (step_contract_invalid m)
as_contract_error (failed (source_path_absent m)) = failed (step_contract_invalid m)
as_contract_error (failed (condition_evaluation m)) = failed (step_contract_invalid m)
as_contract_error r = r

module _ (parse_json : String → Option Json) where
  unfoldable pub validate_input_entries : List String → Mapping → Outcome (Unit {0})
  unfolding parse_target_path split_optional_source_path parse_source_path validate_step_reference
  validate_input_entries prior [] = done tt
  validate_input_entries prior ((target_path, source_path) ∷ entries) = do
    path ← parse_target_path target_path
    reference ← parse_source_path parse_json ((split_optional_source_path source_path).1)
    validate_step_reference prior reference
    validate_input_entries prior entries

  unfoldable pub validate_input_mapping : List String → Json → Outcome (Unit {0})
  unfolding require_mapping_of_strings validate_input_entries
  validate_input_mapping prior input_mapping = do
    entries ← require_mapping_of_strings input_mapping
    validate_input_entries prior entries

  unfoldable pub validate_output_entries : String → Mapping → Outcome (Unit {0})
  unfolding parse_context_target_path parse_source_path is_output_source
  validate_output_entries step_id [] = done tt
  validate_output_entries step_id ((target_path, source_path) ∷ entries) = do
    path ← parse_context_target_path target_path
    reference ← parse_source_path parse_json source_path
    fail_if (not (is_output_source step_id reference))
        (mapping_resolution "output_mapping must map from the current step output")
    validate_output_entries step_id entries

  unfoldable pub validate_output_mapping : String → Json → Outcome (Unit {0})
  unfolding require_mapping_of_strings validate_output_entries
  validate_output_mapping step_id output_mapping = do
    entries ← require_mapping_of_strings output_mapping
    validate_output_entries step_id entries

  unfoldable pub validate_when : List String → Json → Outcome (Unit {0})
  unfolding is_blank parse_source_path reject_literal_when_reference validate_step_reference
  validate_when prior null = done tt
  validate_when prior (text path) = do
    fail_if (is_blank path) (condition_evaluation "`when` must be a non-empty string path.")
    reference ← parse_source_path parse_json path
    reject_literal_when_reference reference
    validate_step_reference prior reference
  validate_when prior _ = failed (condition_evaluation "`when` must be a non-empty string path.")

  unfoldable pub validate_parts :
      String → List String → Json → Json → Json → Json → Outcome (Unit {0})
  unfolding validate_retry_count validate_input_mapping validate_output_mapping validate_when
  validate_parts step_id prior input_mapping output_mapping when retry_count = do
    validate_retry_count retry_count
    validate_input_mapping prior input_mapping
    validate_output_mapping step_id output_mapping
    validate_when prior when

  unfoldable pub validate_step_contract :
      String → List String → Json → Json → Json → Json → Outcome (Unit {0})
  unfolding validate_parts as_contract_error
  validate_step_contract step_id prior input_mapping output_mapping when retry_count =
      as_contract_error (validate_parts step_id prior input_mapping output_mapping when retry_count)
