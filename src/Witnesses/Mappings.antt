-- ===== src/Witnesses/Mappings.antt =====
-- workflows/mappings.py: a workflow step run on concrete data.
use anytoolai_platform.Prelude.{
  String, ◌==◌, true, Bool-cases, inl, inr, Option, none, some, [], ◌∷◌, ◌≡◌, refl, if◌then◌else◌,
}
use anytoolai_platform.Json.{Json, integer, text, boolean, object, Fields, empty, field}
use anytoolai_platform.Json.Dict.{lookup}
use anytoolai_platform.Workflows.Errors.{done}
use anytoolai_platform.Workflows.Mappings.{Mapping, Sources, walk_value, parse_target_path}
use anytoolai_platform.Workflows.Mappings.Resolution.{
  input_value, resolve_source_path, resolve_step_input, resolve_when_condition,
  apply_output_mapping,
}
use anytoolai_platform.Workflows.Mappings.Contracts.{holds_member, validate_step_contract}
use anytoolai_platform.Prelude.Texts.{contains_text, ends_with}
use anytoolai_platform.Workflows.Mappings.Progress.{IsDataError, Only, HaveOutputs}
use anytoolai_platform.Workflows.Mappings.Validated.{
  IsCondition, validated_input, validated-IsCondition,
}
use anytoolai_platform.Workflows.Mappings.Inputs.{entry_reaches_target, all_diverge}
use anytoolai_platform.Workflows.Mappings.Outputs.{validated_output}
use anytoolai_platform.Workflows.Mappings.Readback.{output_read_back}

-- A reader of one JSON text.
abbrev read_one : String → Option Json
read_one payload = if payload == "1" then some (integer 1) else none

abbrev run_sources : Sources
run_sources = record {
  scenario_input = field "topic" (text "tea") empty;
  step_outputs = field "draft" (object (field "title" (text "Tea") empty)) empty;
  context = field "ready" (boolean true) empty;
}

abbrev input_json : Json
input_json = object (
    field "brief.title" (text "steps.draft.output.title")
      (field "tone" (text "?scenario.input.tone") (field "brief.count" (text "literal:1") empty)))

abbrev input_entries : Mapping
input_entries =
    ("brief.title", "steps.draft.output.title")
    ∷ ("tone", "?scenario.input.tone")
    ∷ ("brief.count", "literal:1")
    ∷ []

abbrev output_json : Json
output_json = object (field "context.review.score" (text "steps.review.output.score") empty)

abbrev output_entries : Mapping
output_entries = ("context.review.score", "steps.review.output.score") ∷ []

entry_reaches_target_example :
    walk_value
      (object (
        field "brief"
          (object (field "title" (text "Tea") (field "count" (integer 1) empty)))
          empty))
      ("brief" ∷ "title" ∷ [])
    ≡ done (text "Tea")
unfolding resolve_step_input contains_text ends_with input_value parse_target_path all_diverge
entry_reaches_target_example =
    entry_reaches_target read_one []
      (("tone", "?scenario.input.tone") ∷ ("brief.count", "literal:1") ∷ []) "brief.title"
      "steps.draft.output.title" ("brief" ∷ "title" ∷ []) run_sources (text "Tea")
      (field "brief" (object (field "title" (text "Tea") (field "count" (integer 1) empty))) empty)
      refl refl refl refl

draft_ready : HaveOutputs ("draft" ∷ []) run_sources.step_outputs
unfolding holds_member lookup
draft_ready step_id h = elim (Bool-cases ("draft" == step_id)) [
  | inl e ↦ (object (field "title" (text "Tea") empty), rw (e, if◌then◌else◌) refl)
  | inr e ↦ cc
]

validated_input_example : Only IsDataError (resolve_step_input read_one input_entries run_sources)
unfolding validate_step_contract contains_text ends_with
validated_input_example =
    validated_input read_one "review" ("draft" ∷ []) input_json output_json (text "context.ready")
      (integer 0) input_entries run_sources {u = tt} refl refl draft_ready

validated-IsCondition_example :
    IsCondition (resolve_when_condition read_one "context.ready" run_sources)
unfolding validate_step_contract contains_text ends_with
validated-IsCondition_example =
    validated-IsCondition read_one "review" ("draft" ∷ []) input_json output_json (integer 0)
      "context.ready" run_sources {u = tt} refl draft_ready

validated_output_example : Only IsDataError (
    (apply_output_mapping read_one output_entries "review"
      (object (field "score" (integer 7) empty))
      run_sources.context
      (some run_sources.scenario_input)).0)
unfolding validate_step_contract contains_text ends_with
validated_output_example =
    validated_output read_one "review" ("draft" ∷ []) input_json output_json (text "context.ready")
      (integer 0) output_entries (object (field "score" (integer 7) empty)) run_sources.context
      (some run_sources.scenario_input) {u = tt} refl refl

abbrev reviewed : Fields
reviewed =
    field "ready" (boolean true) (field "review" (object (field "score" (integer 7) empty)) empty)

output_read_back_example :
    (v : Json) × (lookup "context.review.score" (field "context.review.score" (integer 7) empty)
      ≡ some v)
    × (resolve_source_path read_one "context.review.score"
          (record run_sources { context = reviewed })
        ≡ done v)
unfolding apply_output_mapping contains_text ends_with
output_read_back_example =
    output_read_back read_one [] "context.review.score" "steps.review.output.score" "review"
      (object (field "score" (integer 7) empty)) run_sources.context
      (field "context.review.score" (integer 7) empty) reviewed none
      (record run_sources { context = reviewed }) refl refl
