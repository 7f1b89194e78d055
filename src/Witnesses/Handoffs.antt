-- ===== src/Witnesses/Handoffs.antt =====
-- The context and the preview of a handoff, on concrete documents.
use anytoolai_platform.Prelude.{
  String, ◌==◌, Option, none, some, [], ◌∷◌, refl, if◌then◌else◌, ℕ, ◌+◌, ◌≤◌, ◌≡◌, true, arith,
}
use anytoolai_platform.Json.{Json, integer, text, object, Fields, empty, field}
use anytoolai_platform.Events.Sanitizer.{size}
use anytoolai_platform.Prelude.Texts.{split}
use anytoolai_platform.Workflows.Errors.{done}
use anytoolai_platform.Workflows.Mappings.{walk_value}
use anytoolai_platform.Json.Dict.{lookup, insert}
use anytoolai_platform.Handoffs.Mapping.{apply_mapping, source_value}
use anytoolai_platform.Handoffs.Mapping.Reached.{prefix_free, entry_reaches_payload}
use anytoolai_platform.Handoffs.Preview.{safe_preview, preview_max_bytes, preview_truncated}
use anytoolai_platform.Handoffs.Preview.Bounds.{shown, preview_bounded}

-- An encoding that counts the entries of the document.
abbrev encoded_size : Json → ℕ
encoded_size (object d) = 2 + size d
encoded_size _ = 40

-- It nests deeper than the preview does.
abbrev nested : Fields
nested = field "title" (text "t") (
    field "a"
      (object (
        field "b"
          (object
            (field "c" (object (field "d" (object (field "e" (integer 1) empty)) empty)) empty))
          empty))
      empty)

summary_size :
    encoded_size (object (field "summary" (text preview_truncated) empty)) ≤ preview_max_bytes
unfolding size
summary_size = omega arith

preview_bounded_example :
    (shown 4 (object (safe_preview encoded_size nested)) ≡ true)
    × (encoded_size (object (safe_preview encoded_size nested)) ≤ preview_max_bytes)
preview_bounded_example = preview_bounded encoded_size summary_size nested

abbrev read_json : String → Option Json
read_json s = if s == "1" then some (integer 1) else none

entry_reaches_payload_example :
    walk_value
      (object
        (field "user" (object (field "name" (text "t") (field "age" (integer 1) empty))) empty))
      (split 46 "user.name")
    ≡ done (text "t")
unfolding apply_mapping source_value prefix_free lookup insert split
entry_reaches_payload_example =
    entry_reaches_payload read_json true nested [] (("user.age", "literal:1") ∷ []) "user.name"
      "artifact.content_json.title" (text "t")
      (field "user" (object (field "name" (text "t") (field "age" (integer 1) empty))) empty) refl
      refl refl
