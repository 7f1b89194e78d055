-- ===== src/Events/Sanitizer.antt =====
-- events/emitter.py: the sanitising of an event's properties. They are JSON, so the branches for
-- dates, identifiers, enums, tuples and sets have no counterpart. `str.casefold` is a parameter.
pub mod Clean
pub mod Bounded
pub mod Bounds
use anytoolai_platform.Prelude.{
  ℕ, zero, suc, ◌-◌, String, ◌==◌, Bool, true, false, not, ◌&&◌, ◌||◌, List, [], ◌∷◌, leb, ltb,
  if◌then◌else◌,
}
use anytoolai_platform.Prelude.Texts.{contains_text, length, take}
use anytoolai_platform.Json.{
  Json, null, boolean, integer, negative, float, text, array, object, Items, nil, cons, Fields,
  empty, field,
}
use anytoolai_platform.Json.Dict.{insert}
use Prim.Native.String

abbrev pub max_property_depth : ℕ
max_property_depth = 5

abbrev pub max_property_items : ℕ
max_property_items = 50

abbrev pub max_property_string_length : ℕ
max_property_string_length = 1024

abbrev pub redacted : String
redacted = "[REDACTED]"

abbrev pub unsupported : String
unsupported = "[UNSUPPORTED]"

abbrev pub truncated : String
truncated = "[TRUNCATED]"

abbrev pub sensitive_key_parts : List String
sensitive_key_parts =
    "password" ∷ "secret" ∷ "token" ∷ "authorization" ∷ "cookie" ∷ "api_key" ∷ "apikey"
    ∷ "access_key" ∷ "private_key" ∷ "credential" ∷ []

unfoldable pub sanitize_string : String → String
unfolding take
sanitize_string value =
    if leb (length value) max_property_string_length
    then value
    else String.◌++◌ (take (max_property_string_length - length truncated - 1) value)
        (String.◌++◌ " " truncated)

-- `any(part in text for part in parts)`
unfoldable pub any_part : List String → String → Bool
unfolding contains_text
any_part [] s = false
any_part (part ∷ parts) s = contains_text s part || any_part parts s

-- `math.isfinite`, of the float whose `repr` this is
unfoldable pub is_finite : String → Bool
is_finite r = not (r == "nan" || r == "inf" || r == "-inf")

unfoldable pub is_finite_number : Json → Bool
unfolding is_finite
is_finite_number (integer n) = true
is_finite_number (negative n) = true
is_finite_number (float r) = is_finite r
is_finite_number _ = false

unfoldable pub size : Fields → ℕ
size empty = 0
size (field k v d) = suc (size d)

unfoldable pub items_count : Items → ℕ
items_count nil = 0
items_count (cons x xs) = suc (items_count xs)

-- A mapping's last entry, where it has more than the items that are kept.
unfoldable pub note_truncated : ℕ → Fields → Fields
unfolding insert
note_truncated count d =
    if ltb max_property_items count
    then insert "_truncated_items" (integer (count - max_property_items)) d
    else d

-- A sequence's last item, where it has more than the items that are kept.
unfoldable pub truncated_tail : ℕ → Items
truncated_tail count =
    if ltb max_property_items count
    then cons (object (field "_truncated_items" (integer (count - max_property_items)) empty)) nil
    else nil

-- `if depth > MAX_PROPERTY_DEPTH: return TRUNCATED`, or else what is made of the value
unfoldable pub cut_off : ℕ → Json → Json
cut_off depth kept = if ltb max_property_depth depth then text truncated else kept

module _ (casefold : String → String) where
  unfoldable pub is_sensitive_key : String → Bool
  unfolding any_part
  is_sensitive_key key = any_part sensitive_key_parts (casefold key)

  unfoldable pub is_safe_numeric_usage_counter : String → Json → Bool
  unfolding is_finite_number
  is_safe_numeric_usage_counter key value =
      let normalized = casefold key in
      (normalized == "input_tokens"
        || normalized == "output_tokens"
        || normalized == "total_tokens")
      && is_finite_number value

  unfoldable mutual
    unfolding cut_off sanitize_string is_finite size items_count note_truncated truncated_tail
        is_sensitive_key is_safe_numeric_usage_counter insert

    pub sanitize_value : ℕ → Json → Json
    sanitize_value depth null = cut_off depth null
    sanitize_value depth (boolean b) = cut_off depth (boolean b)
    sanitize_value depth (integer n) = cut_off depth (integer n)
    sanitize_value depth (negative n) = cut_off depth (negative n)
    sanitize_value depth (float r) =
        cut_off depth (if is_finite r then float r else text unsupported)
    sanitize_value depth (text s) = cut_off depth (text (sanitize_string s))
    sanitize_value depth (object d) =
        let kept = sanitize_fields (suc depth) max_property_items d empty in
        cut_off depth (object (note_truncated (size d) kept))
    sanitize_value depth (array xs) =
        let kept =
          sanitize_items (suc depth) max_property_items xs (truncated_tail (items_count xs)) in
        cut_off depth (array kept)

    pub sanitize_fields : ℕ → ℕ → Fields → Fields → Fields
    sanitize_fields depth left empty done = done
    sanitize_fields depth zero (field k v d) done = done
    sanitize_fields depth (suc left) (field k v d) done =
        let key = sanitize_string k in
        let kept = sanitize_value depth v in
        let value =
          if is_safe_numeric_usage_counter key v
          then v
          else if is_sensitive_key key
          then text redacted
          else kept in
        sanitize_fields depth left d (insert key value done)

    pub sanitize_items : ℕ → ℕ → Items → Items → Items
    sanitize_items depth left nil tail = tail
    sanitize_items depth zero (cons x xs) tail = tail
    sanitize_items depth (suc left) (cons x xs) tail =
        cons (sanitize_value depth x) (sanitize_items depth left xs tail)

  unfoldable pub sanitize_mapping : ℕ → Fields → Fields
  unfolding sanitize_fields note_truncated size
  sanitize_mapping depth d =
      note_truncated (size d) (sanitize_fields depth max_property_items d empty)

  unfoldable pub sanitize_event_properties : Fields → Fields
  unfolding sanitize_mapping
  sanitize_event_properties properties = sanitize_mapping 0 properties
