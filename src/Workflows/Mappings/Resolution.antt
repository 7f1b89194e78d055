-- ===== src/Workflows/Mappings/Resolution.antt =====
-- workflows/mappings.py: the resolution of a step's input, of its condition and of its output. The
-- reader of strict JSON, which the standard library's `json` does, is a parameter: `none` for a
-- `JSONDecodeError`. `_normalize_value` copies a value, so it has no definition here.
use anytoolai_platform.Prelude.{
  String, Bool, true, false, not, Option, none, some, [], ◌∷◌, opt_eq, if◌then◌else◌,
}
use anytoolai_platform.Prelude.Texts.{starts_with, drop_prefix, split}
use anytoolai_platform.Json.{Json, Fields, empty, field}
use anytoolai_platform.Json.Dict.{insert, is_true}
use anytoolai_platform.Workflows.Errors.{
  mapping_resolution, source_path_absent, condition_evaluation, Outcome, done, failed, ◌>>=◌, ◌>>◌,
  fail_if,
}
use anytoolai_platform.Workflows.Mappings.{
  literal, scenario_input, context, step_output, WorkflowSourcePath, Mapping, Sources,
  require_plain_dotted_path, rooted_source, set_target_value, parse_target_path,
  parse_context_target_path, resolve_reference,
}

-- `source_path.startswith("?")`, and the rest of such a path
unfoldable pub split_optional_source_path : String → Bool × String
unfolding drop_prefix
split_optional_source_path source_path =
    if starts_with source_path "?"
    then (true, drop_prefix "?" source_path)
    else (false, source_path)

-- `reference.root in ("literal", "scenario_input") or` it is the output of that step
unfoldable pub is_output_source : String → WorkflowSourcePath → Bool
is_output_source step_id r = elim r.root [
  | literal ↦ true
  | scenario_input ↦ true
  | context ↦ false
  | step_output ↦ opt_eq r.step_id (some step_id)
]

unfoldable pub reject_literal_when_reference : WorkflowSourcePath → Outcome (Unit {0})
reject_literal_when_reference r = elim r.root [
  | literal ↦ failed (condition_evaluation "`when` does not support literal: sources.")
  | _ ↦ done tt
]

-- `except WorkflowSourcePathAbsentError: continue`, if the source is optional
unfoldable pub if_present : Bool → Outcome Json → Outcome (Option Json)
if_present is_optional (done value) = done (some value)
if_present is_optional (failed (source_path_absent m)) =
    if is_optional then done none else failed (source_path_absent m)
if_present is_optional (failed e) = failed e

unfoldable pub set_input : Fields → String → Option Json → Outcome Fields
unfolding parse_target_path set_target_value
set_input resolved target_path none = done resolved
set_input resolved target_path (some value) = do
  path ← parse_target_path target_path
  set_target_value resolved path value

-- `except WorkflowMappingResolutionError`, of which an absent path is one
unfoldable pub as_condition : Outcome Json → Outcome Bool
unfolding is_true
as_condition (done value) = done (is_true value)
as_condition (failed (mapping_resolution m)) = failed (condition_evaluation m)
as_condition (failed (source_path_absent m)) = failed (condition_evaluation m)
as_condition (failed e) = failed e

module _ (parse_json : String → Option Json) where
  unfoldable pub parse_source_path : String → Outcome WorkflowSourcePath
  unfolding drop_prefix split require_plain_dotted_path rooted_source
  parse_source_path source_path =
      if starts_with source_path "literal:"
      then elim (parse_json (drop_prefix "literal:" source_path)) [
        | none ↦ failed (mapping_resolution "workflow literal source path is not valid JSON")
        | some value ↦
            done (record { root = literal; path = []; step_id = none; literal_value = value })
      ]
      else require_plain_dotted_path source_path >> rooted_source (split 46 source_path)

  unfoldable pub resolve_source_path : String → Sources → Outcome Json
  unfolding parse_source_path resolve_reference
  resolve_source_path source_path s = do
    reference ← parse_source_path source_path
    resolve_reference reference s

  -- One entry of the input mapping: the value for its target, or nothing to set.
  unfoldable pub input_value : String → Sources → Outcome (Option Json)
  unfolding split_optional_source_path resolve_source_path if_present
  input_value source_path s =
      let (is_optional, effective) = split_optional_source_path source_path in
      if_present is_optional (resolve_source_path effective s)

  unfoldable pub resolve_entries : Mapping → Sources → Fields → Outcome Fields
  unfolding input_value set_input
  resolve_entries [] s resolved = done resolved
  resolve_entries ((target_path, source_path) ∷ entries) s resolved = do
    value ← input_value source_path s
    next ← set_input resolved target_path value
    resolve_entries entries s next

  unfoldable pub resolve_step_input : Mapping → Sources → Outcome Fields
  unfolding resolve_entries
  resolve_step_input [] s = done s.scenario_input
  resolve_step_input (entry ∷ entries) s = resolve_entries (entry ∷ entries) s empty

  unfoldable pub resolve_when_condition : String → Sources → Outcome Bool
  unfolding parse_source_path reject_literal_when_reference resolve_source_path as_condition
  resolve_when_condition when s = do
    reference ← parse_source_path when
    reject_literal_when_reference reference
    as_condition (resolve_source_path when s)

  -- One entry of the output mapping: the value, and the context it is written to.
  unfoldable pub output_value : String → String → String → Sources → Outcome (Json × Fields)
  unfolding parse_source_path resolve_source_path parse_context_target_path set_target_value
      is_output_source
  output_value step_id target_path source_path s = do
    reference ← parse_source_path source_path
    fail_if (not (is_output_source step_id reference))
        (mapping_resolution "output_mapping sources must reference the current step output")
    value ← resolve_source_path source_path s
    path ← parse_context_target_path target_path
    written ← set_target_value s.context path value
    done (value, written)

  -- The result, and the context, which keeps the entries before one that fails.
  unfoldable pub apply_entries : String → Mapping → Sources → Fields → Outcome Fields × Fields
  unfolding output_value insert
  apply_entries step_id [] s applied = (done applied, s.context)
  apply_entries step_id ((target_path, source_path) ∷ entries) s applied =
      elim (output_value step_id target_path source_path s) [
        | failed e ↦ (failed e, s.context)
        | done (value, written) ↦
            apply_entries step_id entries (record s { context = written })
              (insert target_path value applied)
      ]

  unfoldable pub apply_output_mapping :
      Mapping → String → Json → Fields → Option Fields → Outcome Fields × Fields
  unfolding apply_entries
  apply_output_mapping [] step_id output before scenario_in = (done empty, before)
  apply_output_mapping (entry ∷ entries) step_id output before scenario_in =
      apply_entries step_id (entry ∷ entries)
        (record {
          scenario_input = or_empty scenario_in;
          step_outputs = field step_id output empty;
          context = before;
        })
        empty
    where
      or_empty : Option Fields → Fields
      or_empty none = empty
      or_empty (some d) = d
