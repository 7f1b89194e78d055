-- ===== src/Handoffs/Mapping.antt =====
-- handoffs/payloads.py: `_apply_mapping` and `_set_path`, which build the context and the preview of
-- a handoff from the source artifact. The strict JSON reader is a parameter. What is put at a target
-- is shared with the artifact; the loader of the configuration rejects a mapping with a target below
-- another, so nothing is written into what is shared, and it is a value here.
pub mod Reached
use anytoolai_platform.Prelude.{
  String, ◌==◌, Bool, true, false, not, ◌&&◌, Option, none, some, List, [], ◌∷◌, ◌≡◌, refl,
  if◌then◌else◌,
}
use anytoolai_platform.Prelude.Texts.{starts_with, drop_prefix, split}
use anytoolai_platform.Json.{Json, object, Fields, empty}
use anytoolai_platform.Json.Dict.{lookup, insert}
use anytoolai_platform.Workflows.Mappings.{Mapping, any_empty}

-- What a step of the building returns, or the message of a `HandoffPayloadError`.
pub data Built {ℓ} (A : Type ℓ) : Type ℓ where
  built : A → Built A
  payload_error : String → Built A

infixl 5 ◌>>=◌ ◌>>◌
abbrev pub ◌>>=◌ : {A B : Type 0} → Built A → (A → Built B) → Built B
built a >>= f = f a
payload_error e >>= f = payload_error e

abbrev pub ◌>>◌ : {B : Type 0} → Built (Unit {0}) → Built B → Built B
m >> k = m >>= λ _. k

-- `if test: raise HandoffPayloadError(e)`
abbrev pub error_if : Bool → String → Built (Unit {0})
error_if true e = payload_error e
error_if false e = built tt

unfoldable pub walk_artifact : Json → List String → Built Json
unfolding lookup
walk_artifact current [] = built current
walk_artifact (object d) (segment ∷ path) = elim (lookup segment d) [
  | none ↦ payload_error "handoff source path could not be resolved"
  | some next ↦ walk_artifact next path
]
walk_artifact _ (segment ∷ path) = payload_error "handoff source path could not be resolved"

-- `parts[:2] != ["artifact", "content_json"]`, and the walk from there
unfoldable pub artifact_value : Fields → List String → Built Json
unfolding walk_artifact
artifact_value artifact (a ∷ c ∷ path) =
    if a == "artifact" && c == "content_json"
    then walk_artifact (object artifact) path
    else payload_error "unsupported handoff source path"
artifact_value artifact _ = payload_error "unsupported handoff source path"

-- `current.setdefault(part, {})`, where it is a dict
unfoldable pub default_child : Option Json → Built Fields
default_child none = built empty
default_child (some (object d)) = built d
default_child (some _) = payload_error "handoff target path collision"

-- The loop over the segments. A split text has one segment at least.
unfoldable pub set_parts : Fields → List String → Json → Built Fields
unfolding default_child lookup insert
set_parts target [] value = payload_error "invalid handoff target path"
set_parts target (part ∷ []) value = built (insert part value target)
set_parts target (part ∷ next ∷ parts) value = do
  current ← default_child (lookup part target)
  below ← set_parts current (next ∷ parts) value
  built (insert part (object below) target)

unfoldable pub set_path : Fields → String → Json → Built Fields
unfolding any_empty split set_parts
set_path target path value = do
  error_if (any_empty (split 46 path)) "invalid handoff target path"
  set_parts target (split 46 path) value

module _ (parse_json : String → Option Json) where
  unfoldable pub literal_value : Bool → String → Built Json
  unfolding drop_prefix
  literal_value allow_literal source_path = do
    error_if (not allow_literal) "handoff literal source paths are not allowed here"
    elim (parse_json (drop_prefix "literal:" source_path)) [
      | none ↦ payload_error "handoff literal source path is not valid JSON"
      | some value ↦ built value
    ]

  unfoldable pub source_value : Bool → Fields → String → Built Json
  unfolding literal_value artifact_value split
  source_value allow_literal artifact source_path =
      if starts_with source_path "literal:"
      then literal_value allow_literal source_path
      else artifact_value artifact (split 46 source_path)

  unfoldable pub map_entries : Bool → Fields → Mapping → Fields → Built Fields
  unfolding source_value set_path
  map_entries allow_literal artifact [] result = built result
  map_entries allow_literal artifact ((target_path, source_path) ∷ entries) result = do
    value ← source_value allow_literal artifact source_path
    next ← set_path result target_path value
    map_entries allow_literal artifact entries next

  unfoldable pub apply_mapping : Bool → Fields → Mapping → Built Fields
  unfolding map_entries
  apply_mapping allow_literal artifact mapping = map_entries allow_literal artifact mapping empty
