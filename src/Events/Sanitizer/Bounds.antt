-- ===== src/Events/Sanitizer/Bounds.antt =====
-- events/emitter.py: the size of what `sanitize_event_properties` leaves.
use anytoolai_platform.Prelude.{
  ℕ, zero, suc, ◌+◌, ◌-◌, ◌≤◌, String, true, ◌≡◌, refl, arith, inl, inr, Bool-cases, and_split,
  and_both, if◌then◌else◌, ltb, leb,
}
use anytoolai_platform.Json.{
  Json, null, boolean, integer, negative, float, text, array, object, Items, nil, cons, Fields,
  empty, field,
}
use anytoolai_platform.Events.Sanitizer.{
  max_property_depth, max_property_items, redacted, truncated, cut_off, is_finite, is_finite_number,
  truncated_tail, is_sensitive_key, is_safe_numeric_usage_counter, sanitize_string, size,
  items_count, sanitize_value, sanitize_fields, sanitize_items, sanitize_mapping,
  sanitize_event_properties,
}
use anytoolai_platform.Events.Sanitizer.Bounded.{
  bounded, fields_bounded, items_bounded, sanitize_string-fits, fields_bounded-insert, size-insert,
  bounded-text, number-bounded, deep_enough, object-bounded, note_truncated-bounded,
}

module _ (casefold : String → String) where
  size-sanitize_fields :
      (n left : ℕ) (d done : Fields)
      → size (sanitize_fields casefold n left d done) ≤ left + size done
  unfolding sanitize_fields
  size-sanitize_fields n left empty done = omega arith
  size-sanitize_fields n zero (field k v d) done = omega arith
  size-sanitize_fields n (suc left) (field k v d) done =
      omega (arith, size-sanitize_fields n left d _, size-insert (sanitize_string k) _ done)

  items_count-sanitize_items :
      (n left : ℕ) (xs tail : Items)
      → items_count (sanitize_items casefold n left xs tail) ≤ left + items_count tail
  unfolding sanitize_items items_count
  items_count-sanitize_items n left nil tail = omega arith
  items_count-sanitize_items n zero (cons x xs) tail = omega arith
  items_count-sanitize_items n (suc left) (cons x xs) tail =
      omega (arith, items_count-sanitize_items n left xs tail)

  counter-bounded :
      (n : ℕ) (k : String) (v : Json)
      → is_safe_numeric_usage_counter casefold k v ≡ true
      → bounded n v ≡ true
  unfolding is_safe_numeric_usage_counter
  counter-bounded n k v h = number-bounded n v ((and_split _ (is_finite_number v) h).1)

  -- A value at a depth, with the levels that are left to it.
  cut_off-bounded :
      (n m : ℕ) (v : Json)
      → 7 ≤ n + m
      → ((i : ℕ) → m ≡ suc (suc i) → bounded m v ≡ true)
      → bounded m (cut_off n v) ≡ true
  unfolding cut_off
  cut_off-bounded n m v h k = elim (Bool-cases (ltb max_property_depth n)) [
    | inl e ↦ rw (e, if◌then◌else◌) (bounded-text m truncated refl)
    | inr e ↦ rw (e, if◌then◌else◌) (k (m - 2) (deep_enough n m h e))
  ]

  fits_empty : (x : ℕ) → x ≤ max_property_items + size empty → x ≤ max_property_items
  unfolding size
  fits_empty x h = omega arith

  fits_tail : (x y : ℕ) → x ≤ max_property_items + y → y ≤ 1 → x ≤ suc max_property_items
  fits_tail x y h k = omega arith

  array-bounded :
      (n : ℕ) (xs : Items)
      → items_count xs ≤ suc max_property_items
      → items_bounded n xs ≡ true
      → bounded (suc n) (array xs) ≡ true
  unfolding bounded
  array-bounded n xs h k = and_both (within (items_count xs) h) k
    where
      within : (x : ℕ) → x ≤ 51 → leb x 51 ≡ true
      within x h = ground arith

  truncated_tail-bounded :
      (n count : ℕ)
      → (items_count (truncated_tail count) ≤ 1)
        × (items_bounded (suc n) (truncated_tail count) ≡ true)
  unfolding truncated_tail items_bounded items_count
  truncated_tail-bounded n count = elim (Bool-cases (ltb max_property_items count)) [
    | inl e ↦ rw (e, if◌then◌else◌) (omega arith, refl)
    | inr e ↦ rw (e, if◌then◌else◌) (omega arith, refl)
  ]

  kept-bounded :
      (m : ℕ) (key : String) (v kept : Json)
      → bounded m kept ≡ true
      → bounded m (
          if is_safe_numeric_usage_counter casefold key v
          then v
          else if is_sensitive_key casefold key
          then text redacted
          else kept)
        ≡ true
  kept-bounded m key v kept h = elim (Bool-cases (is_safe_numeric_usage_counter casefold key v)) [
    | inl e ↦ rw (e, if◌then◌else◌) (counter-bounded m key v e)
    | inr e ↦ elim (Bool-cases (is_sensitive_key casefold key)) [
      | inl f ↦ rw (e, f, if◌then◌else◌) (bounded-text m redacted refl)
      | inr f ↦ rw (e, f, if◌then◌else◌) h
    ]
  ]

  unfoldable mutual
    unfolding sanitize_value bounded

    sanitize_value-bounded :
        (v : Json) (n m : ℕ) → 7 ≤ n + m → bounded m (sanitize_value casefold n v) ≡ true
    sanitize_value-bounded null n m h = cut_off-bounded n m null h (λ i f. refl)
    sanitize_value-bounded (boolean b) n m h = cut_off-bounded n m (boolean b) h (λ i f. refl)
    sanitize_value-bounded (integer k) n m h = cut_off-bounded n m (integer k) h (λ i f. refl)
    sanitize_value-bounded (negative k) n m h = cut_off-bounded n m (negative k) h (λ i f. refl)
    sanitize_value-bounded (float r) n m h = cut_off-bounded n m _ h (λ i f.
        elim (Bool-cases (is_finite r)) [
          | inl e ↦ rw (e, if◌then◌else◌) refl
          | inr e ↦ rw (e, if◌then◌else◌) refl
        ])
    sanitize_value-bounded (text s) n m h =
        cut_off-bounded n m _ h (λ i f. bounded-text m (sanitize_string s) (sanitize_string-fits s))
    sanitize_value-bounded (object d) n m h = cut_off-bounded n m _ h (λ i f.
        let deep : 7 ≤ suc n + suc i = omega (arith, h, f) in
        let fit = size-sanitize_fields (suc n) max_property_items d empty in
        let (a, b) =
          note_truncated-bounded (suc i) (size d)
            (sanitize_fields casefold (suc n) max_property_items d empty) (fits_empty _ fit)
            (sanitize_fields-bounded d empty (suc n) max_property_items (suc i) deep refl) in
        rw (f) (object-bounded (suc i) _ a b))
    sanitize_value-bounded (array xs) n m h = cut_off-bounded n m _ h (λ i f.
        let deep : 7 ≤ suc n + suc i = omega (arith, h, f) in
        let tail = truncated_tail (items_count xs) in
        let (a, b) = truncated_tail-bounded i (items_count xs) in
        let fit = items_count-sanitize_items (suc n) max_property_items xs tail in
        rw (f) (
          array-bounded (suc i) _ (fits_tail _ _ fit a)
            (sanitize_items-bounded xs tail (suc n) max_property_items (suc i) deep b)))

    sanitize_fields-bounded :
        (d done : Fields) (n left m : ℕ)
        → 7 ≤ n + m
        → fields_bounded m done ≡ true
        → fields_bounded m (sanitize_fields casefold n left d done) ≡ true
    sanitize_fields-bounded empty done n left m h k = k
    sanitize_fields-bounded (field key v d) done n zero m h k = k
    sanitize_fields-bounded (field key v d) done n (suc left) m h k =
        let name = sanitize_string key in
        let kept = sanitize_value-bounded v n m h in
        sanitize_fields-bounded d _ n left m h (
          fields_bounded-insert m name _ done (sanitize_string-fits key)
            (kept-bounded m name v (sanitize_value casefold n v) kept) k)

    sanitize_items-bounded :
        (xs tail : Items) (n left m : ℕ)
        → 7 ≤ n + m
        → items_bounded m tail ≡ true
        → items_bounded m (sanitize_items casefold n left xs tail) ≡ true
    sanitize_items-bounded nil tail n left m h k = k
    sanitize_items-bounded (cons x xs) tail n zero m h k = k
    sanitize_items-bounded (cons x xs) tail n (suc left) m h k =
        and_both (sanitize_value-bounded x n m h) (sanitize_items-bounded xs tail n left m h k)

  -- The sanitised properties of an event, whatever the properties were, nest to 8 levels at most,
  -- with at most 51 entries or items in each, and every text and every key has at most 1024
  -- characters.
  pub properties_bounded :
      (d : Fields) → bounded 8 (object (sanitize_event_properties casefold d)) ≡ true
  unfolding sanitize_event_properties sanitize_mapping fields_bounded
  properties_bounded d =
      let fit = size-sanitize_fields 0 max_property_items d empty in
      let (a, b) =
        note_truncated-bounded 7 (size d) (sanitize_fields casefold 0 max_property_items d empty)
          (fits_empty _ fit)
          (sanitize_fields-bounded d empty 0 max_property_items 7 (omega arith) refl) in
      object-bounded 7 _ a b
