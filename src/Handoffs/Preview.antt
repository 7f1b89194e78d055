-- ===== src/Handoffs/Preview.antt =====
-- handoffs/payloads.py: the preview of a handoff, `_safe_preview`. The length in bytes of a value's
-- JSON encoding is a parameter.
pub mod Bounds
use anytoolai_platform.Prelude.{ℕ, zero, suc, String, Bool, true, false, leb, ltb, if◌then◌else◌}
use anytoolai_platform.Prelude.Texts.{length, take}
use anytoolai_platform.Json.{
  Json, null, boolean, integer, negative, float, text, array, object, Items, nil, cons, Fields,
  empty, field,
}
use anytoolai_platform.Json.Dict.{insert}
use anytoolai_platform.Events.Sanitizer.{is_finite}
use Prim.Native.String

abbrev pub preview_max_depth : ℕ
preview_max_depth = 4

abbrev pub preview_max_items : ℕ
preview_max_items = 20

abbrev pub preview_max_string_length : ℕ
preview_max_string_length = 512

abbrev pub preview_max_bytes : ℕ
preview_max_bytes = 8192

abbrev pub preview_truncated : String
preview_truncated = "[TRUNCATED]"

abbrev pub preview_unsupported : String
preview_unsupported = "[UNSUPPORTED]"

unfoldable pub preview_string : String → String
unfolding take
preview_string value =
    if leb (length value) preview_max_string_length
    then value
    else String.◌++◌ (take preview_max_string_length value) preview_truncated

-- `if depth >= PREVIEW_MAX_DEPTH: return TRUNCATED`, or else what is made of the value
unfoldable pub below_max_depth : ℕ → Json → Json
below_max_depth depth kept = if leb preview_max_depth depth then text preview_truncated else kept

unfoldable mutual
  unfolding below_max_depth preview_string is_finite insert

  pub sanitize_preview_value : ℕ → Json → Json
  sanitize_preview_value depth null = below_max_depth depth null
  sanitize_preview_value depth (boolean b) = below_max_depth depth (boolean b)
  sanitize_preview_value depth (integer n) = below_max_depth depth (integer n)
  sanitize_preview_value depth (negative n) = below_max_depth depth (negative n)
  sanitize_preview_value depth (float r) =
      below_max_depth depth (if is_finite r then float r else text preview_unsupported)
  sanitize_preview_value depth (text s) = below_max_depth depth (text (preview_string s))
  sanitize_preview_value depth (object d) =
      let kept = preview_fields (suc depth) preview_max_items d empty in
      below_max_depth depth (object kept)
  sanitize_preview_value depth (array xs) =
      let kept = preview_items (suc depth) preview_max_items xs in
      below_max_depth depth (array kept)

  -- The comprehension over `list(value.items())[:PREVIEW_MAX_ITEMS]`.
  pub preview_fields : ℕ → ℕ → Fields → Fields → Fields
  preview_fields depth left empty done = done
  preview_fields depth zero (field k v d) done = done
  preview_fields depth (suc left) (field k v d) done =
      preview_fields depth left d (insert k (sanitize_preview_value depth v) done)

  pub preview_items : ℕ → ℕ → Items → Items
  preview_items depth left nil = nil
  preview_items depth zero (cons x xs) = nil
  preview_items depth (suc left) (cons x xs) =
      cons (sanitize_preview_value depth x) (preview_items depth left xs)

-- A mapping is sanitised to a mapping, at depth 0.
unfoldable pub safe_preview : (Json → ℕ) → Fields → Fields
unfolding preview_fields
safe_preview encoded_size value =
    let sanitized = preview_fields 1 preview_max_items value empty in
    if ltb preview_max_bytes (encoded_size (object sanitized))
    then field "summary" (text preview_truncated) empty
    else sanitized
