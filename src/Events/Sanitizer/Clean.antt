-- ===== src/Events/Sanitizer/Clean.antt =====
-- events/emitter.py: what `sanitize_event_properties` leaves under a sensitive key.
use anytoolai_platform.Prelude.{
  ℕ, zero, suc, ◌-◌, String, ◌==◌, Bool, true, false, not, ◌||◌, ◌≡◌, ◌≢◌, refl, ◌∙◌, inl, inr,
  and_split, and_both, or_true, or_true, Bool-cases, if◌then◌else◌, ltb,
}
use anytoolai_platform.Json.{
  Json, null, boolean, integer, negative, float, text, array, object, Items, nil, cons, Fields,
  empty, field,
}
use anytoolai_platform.Json.Entries.{
  entries_hold, fields_hold, items_hold, fields_hold-insert, items_hold-cons,
}
use anytoolai_platform.Events.Sanitizer.{
  max_property_depth, max_property_items, redacted, cut_off, is_finite, is_finite_number,
  note_truncated, truncated_tail, is_sensitive_key, is_safe_numeric_usage_counter, any_part,
  sanitize_string, size, items_count, sanitize_value, sanitize_fields, sanitize_items,
  sanitize_mapping, sanitize_event_properties,
}

unfoldable pub is_redacted : Json → Bool
is_redacted (text s) = s == redacted
is_redacted _ = false

module _ (casefold : String → String) where
  -- A value under a sensitive key is redacted, or it is a usage counter that is a finite number.
  unfoldable pub entry_clean : String → Json → Bool
  unfolding is_redacted is_sensitive_key is_safe_numeric_usage_counter
  entry_clean key value =
      not (is_sensitive_key casefold key)
      || is_redacted value
      || is_safe_numeric_usage_counter casefold key value

  unfoldable pub fields_clean : Fields → Bool
  unfolding entry_clean fields_hold
  fields_clean d = fields_hold entry_clean d

  clean : Json → Bool
  unfolding entry_clean entries_hold
  clean v = entries_hold entry_clean v

  no_counter :
      (k : String) (v : Json)
      → is_finite_number v ≡ false
      → is_safe_numeric_usage_counter casefold k v ≢ true
  unfolding is_safe_numeric_usage_counter
  no_counter k v h c = let t = (and_split _ (is_finite_number v) c).1 in cc

  counter-clean :
      (k : String) (v : Json) → is_safe_numeric_usage_counter casefold k v ≡ true → clean v ≡ true
  unfolding clean
  counter-clean k null h = refl
  counter-clean k (boolean b) h = refl
  counter-clean k (integer n) h = refl
  counter-clean k (negative n) h = refl
  counter-clean k (float r) h = refl
  counter-clean k (text s) h = refl
  counter-clean k (array xs) h = absurd (no_counter k (array xs) refl h)
  counter-clean k (object d) h = absurd (no_counter k (object d) refl h)

  clean-cut_off : (n : ℕ) (v : Json) → clean v ≡ true → clean (cut_off n v) ≡ true
  unfolding cut_off clean
  clean-cut_off n v h = elim (Bool-cases (ltb max_property_depth n)) [
    | inl e ↦ rw (e, cut_off, if◌then◌else◌) refl
    | inr e ↦ rw (e, cut_off, if◌then◌else◌) h
  ]

  -- What one entry of a mapping becomes.
  abbrev kept_value : String → Json → Json → Json
  kept_value key v kept =
      if is_safe_numeric_usage_counter casefold key v
      then v
      else if is_sensitive_key casefold key
      then text redacted
      else kept

  kept_value-clean :
      (key : String) (v kept : Json)
      → clean kept ≡ true
      → (entry_clean key (kept_value key v kept) ≡ true) × (clean (kept_value key v kept) ≡ true)
  unfolding entry_clean clean entries_hold
  kept_value-clean key v kept h = elim (Bool-cases (is_safe_numeric_usage_counter casefold key v)) [
    | inl e ↦
        rw (e, if◌then◌else◌)
          (or_true (not (is_sensitive_key casefold key) || is_redacted v) e, counter-clean key v e)
    | inr e ↦ elim (Bool-cases (is_sensitive_key casefold key)) [
      | inl f ↦ rw (e, f, if◌then◌else◌) (refl, refl)
      | inr f ↦ rw (e, f, if◌then◌else◌) (refl, h)
    ]
  ]

  module _ (plain : casefold "_truncated_items" ≡ "_truncated_items") where
    count_clean : (n : ℕ) → entry_clean "_truncated_items" (integer n) ≡ true
    unfolding entry_clean is_sensitive_key any_part
    count_clean n = rw (plain) refl

    truncated_tail-clean : (n : ℕ) → items_hold entry_clean (truncated_tail n) ≡ true
    unfolding truncated_tail items_hold
    truncated_tail-clean n = elim (Bool-cases (ltb max_property_items n)) [
      | inl e ↦
          rw (e, if◌then◌else◌)
            (and_both (and_both (and_both (count_clean (n - max_property_items)) refl) refl) refl)
      | inr e ↦ rw (e, if◌then◌else◌) refl
    ]

    fields_clean-note_truncated :
        (n : ℕ) (d : Fields) → fields_clean d ≡ true → fields_clean (note_truncated n d) ≡ true
    unfolding note_truncated fields_clean
    fields_clean-note_truncated n d h = elim (Bool-cases (ltb max_property_items n)) [
      | inl e ↦
          rw (e, if◌then◌else◌)
            (fields_hold-insert entry_clean "_truncated_items" (integer (n - max_property_items)) d
              (count_clean (n - max_property_items)) refl h)
      | inr e ↦ rw (e, if◌then◌else◌) h
    ]

    unfoldable mutual
      unfolding sanitize_value clean fields_clean

      sanitize_value-clean : (n : ℕ) (v : Json) → clean (sanitize_value casefold n v) ≡ true
      sanitize_value-clean n null = clean-cut_off n null refl
      sanitize_value-clean n (boolean b) = clean-cut_off n (boolean b) refl
      sanitize_value-clean n (integer k) = clean-cut_off n (integer k) refl
      sanitize_value-clean n (negative k) = clean-cut_off n (negative k) refl
      sanitize_value-clean n (float r) = clean-cut_off n _ (elim (Bool-cases (is_finite r)) [
        | inl e ↦ rw (e, if◌then◌else◌) refl
        | inr e ↦ rw (e, if◌then◌else◌) refl
      ])
      sanitize_value-clean n (text s) = clean-cut_off n (text (sanitize_string s)) refl
      sanitize_value-clean n (object d) = clean-cut_off n _ (
          fields_clean-note_truncated (size d) _
            (sanitize_fields-clean (suc n) max_property_items d empty refl))
      sanitize_value-clean n (array xs) = clean-cut_off n _ (
          sanitize_items-clean (suc n) max_property_items xs _
            (truncated_tail-clean (items_count xs)))

      sanitize_fields-clean :
          (n left : ℕ) (d done : Fields)
          → fields_clean done ≡ true
          → fields_clean (sanitize_fields casefold n left d done) ≡ true
      sanitize_fields-clean n left empty done h = h
      sanitize_fields-clean n zero (field k v d) done h = h
      sanitize_fields-clean n (suc left) (field k v d) done h =
          let key = sanitize_string k in
          let kept = sanitize_value-clean n v in
          let (e, c) = kept_value-clean key v (sanitize_value casefold n v) kept in
          sanitize_fields-clean n left d _ (fields_hold-insert entry_clean key _ done e c h)

      sanitize_items-clean :
          (n left : ℕ) (xs tail : Items)
          → items_hold entry_clean tail ≡ true
          → items_hold entry_clean (sanitize_items casefold n left xs tail) ≡ true
      sanitize_items-clean n left nil tail h = h
      sanitize_items-clean n zero (cons x xs) tail h = h
      sanitize_items-clean n (suc left) (cons x xs) tail h =
          items_hold-cons entry_clean (sanitize_value casefold n x)
            (sanitize_items casefold n left xs tail)
          ∙ and_both (sanitize_value-clean n x) (sanitize_items-clean n left xs tail h)

    -- In the sanitised properties of an event, at every depth, a sensitive key has only the
    -- redaction mark or a finite number under a key that counts tokens, if the case folding leaves
    -- _truncated_items as it is.
    pub properties_clean :
        (properties : Fields) → fields_clean (sanitize_event_properties casefold properties) ≡ true
    unfolding sanitize_event_properties sanitize_mapping fields_clean
    properties_clean d =
        fields_clean-note_truncated (size d) _
          (sanitize_fields-clean 0 max_property_items d empty refl)
