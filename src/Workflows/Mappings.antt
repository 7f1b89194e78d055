-- ===== src/Workflows/Mappings.antt =====
-- workflows/mappings.py: the paths that a workflow step reads and writes.
pub mod Resolution
pub mod Contracts
pub mod Targets
pub mod Inputs
pub mod Progress
pub mod Validated
pub mod Roots
pub mod Outputs
pub mod Readback
use anytoolai_platform.Prelude.{
  String, ◌==◌, Bool, true, false, not, ◌&&◌, ◌||◌, Option, none, some, List, [], ◌∷◌, opt_eq,
  if◌then◌else◌,
}
use anytoolai_platform.Prelude.Texts.{contains_text, ends_with, drop_prefix, split, starts_with}
use anytoolai_platform.Json.{Json, null, text, object, Fields, empty, field}
use anytoolai_platform.Json.Dict.{lookup, insert, is_true}
use anytoolai_platform.Workflows.Errors.{
  MappingError, mapping_resolution, source_path_absent, condition_evaluation, index_error, Outcome,
  done, failed, ◌>>=◌, ◌>>◌, fail_if,
}

pub data SourceRoot : Type 0 where
  literal scenario_input context step_output : SourceRoot

pub record WorkflowSourcePath : Type 0 where
  pub root : SourceRoot
  pub path : List String
  pub step_id : Option String
  pub literal_value : Json

-- A mapping of strings, in the order of its keys.
abbrev pub Mapping : Type 0
Mapping = List (String × String)

unfoldable pub require_plain_dotted_path : String → Outcome (Unit {0})
require_plain_dotted_path value = do
  fail_if (contains_text value "[" || contains_text value "]")
      (mapping_resolution "workflow paths do not support array indexing or bracket syntax.")
  fail_if (starts_with value "." || ends_with value "." || contains_text value "..")
      (mapping_resolution "workflow paths must use plain dotted segments.")

-- `parts[len(prefix):]`, if `parts[:len(prefix)] == prefix`
unfoldable pub after_prefix : List String → List String → Option (List String)
after_prefix [] parts = some parts
after_prefix (p ∷ prefix) [] = none
after_prefix (p ∷ prefix) (q ∷ parts) =
    let rest = after_prefix prefix parts in if p == q then rest else none

unfoldable pub step_source : List String → Outcome WorkflowSourcePath
step_source (a ∷ step_id ∷ c ∷ path) =
    if a == "steps" && c == "output"
    then done
        (record { root = step_output; path = path; step_id = some step_id; literal_value = null })
    else failed (mapping_resolution "unsupported workflow source path.")
step_source _ = failed (mapping_resolution "unsupported workflow source path.")

unfoldable pub rooted_source : List String → Outcome WorkflowSourcePath
unfolding after_prefix step_source
rooted_source parts = elim (after_prefix ("scenario" ∷ "input" ∷ []) parts) [
  | some path ↦
      done (record { root = scenario_input; path = path; step_id = none; literal_value = null })
  | none ↦ elim (after_prefix ("context" ∷ []) parts) [
    | some path ↦
        done (record { root = context; path = path; step_id = none; literal_value = null })
    | none ↦ step_source parts
  ]
]

unfoldable pub walk_value : Json → List String → Outcome Json
unfolding lookup
walk_value current [] = done current
walk_value (object d) (segment ∷ path) = elim (lookup segment d) [
  | none ↦ failed (source_path_absent "workflow source path could not be resolved")
  | some next ↦ walk_value next path
]
walk_value _ (segment ∷ path) =
    failed (mapping_resolution "workflow source path could not be resolved")

-- The dict that a segment of a target leads to: a missing or null value becomes a new one.
unfoldable pub child : Option Json → Outcome Fields
child none = done empty
child (some null) = done empty
child (some (object d)) = done d
child (some _) = failed (mapping_resolution "workflow target path collides with a non-object value")

unfoldable pub set_target_value : Fields → List String → Json → Outcome Fields
unfolding child lookup insert
set_target_value target [] value = failed (index_error "path")
set_target_value target (segment ∷ []) value = done (insert segment value target)
set_target_value target (segment ∷ next ∷ path) value = do
  current ← child (lookup segment target)
  below ← set_target_value current (next ∷ path) value
  done (insert segment (object below) target)

-- `any(not part for part in parts)`
unfoldable pub any_empty : List String → Bool
any_empty [] = false
any_empty (part ∷ parts) = part == "" || any_empty parts

unfoldable pub relative_parts : List String → Outcome (List String)
unfolding any_empty
relative_parts [] = failed (mapping_resolution "workflow target paths must be non-empty.")
relative_parts (part ∷ parts) = do
  fail_if (any_empty (part ∷ parts)) (mapping_resolution "workflow target paths must be non-empty.")
  fail_if (part == "scenario" || part == "steps" || part == "context" && not (is_last parts)) (
      mapping_resolution
        "step input target paths must be relative field paths, not rooted source paths.")
  done (part ∷ parts)
  where
    is_last : List String → Bool
    is_last [] = true
    is_last (p ∷ ps) = false

unfoldable pub parse_target_path : String → Outcome (List String)
unfolding relative_parts require_plain_dotted_path split
parse_target_path target_path = do
  require_plain_dotted_path target_path
  relative_parts (split 46 target_path)

unfoldable pub context_parts : List String → Outcome (List String)
unfolding any_empty
context_parts (root ∷ part ∷ parts) = do
  fail_if (not (root == "context"))
      (mapping_resolution "workflow output targets must use the `context.*` path contract.")
  fail_if (any_empty (part ∷ parts))
      (mapping_resolution "workflow context target paths must be non-empty.")
  done (part ∷ parts)
context_parts _ =
    failed (mapping_resolution "workflow output targets must use the `context.*` path contract.")

unfoldable pub parse_context_target_path : String → Outcome (List String)
unfolding context_parts require_plain_dotted_path split
parse_context_target_path target_path = do
  require_plain_dotted_path target_path
  context_parts (split 46 target_path)

-- What a path may be resolved in.
pub record Sources : Type 0 where
  pub scenario_input : Fields
  pub step_outputs : Fields
  pub context : Fields

-- The value at the root of a reference that is no literal.
unfoldable pub root_value : SourceRoot → Option String → Sources → Outcome Json
unfolding lookup
root_value scenario_input step_id s = done (object s.scenario_input)
root_value context step_id s = done (object s.context)
root_value _ none s = failed (index_error "step_id")
root_value _ (some step_id) s = elim (lookup step_id s.step_outputs) [
  | none ↦ failed (source_path_absent "workflow step output not available")
  | some value ↦ done value
]

unfoldable pub resolve_reference : WorkflowSourcePath → Sources → Outcome Json
unfolding root_value walk_value
resolve_reference r s = elim r.root [
  | literal ↦ done r.literal_value
  | root ↦ root_value root r.step_id s >>= λ current. walk_value current r.path
]
