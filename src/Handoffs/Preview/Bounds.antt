-- ===== src/Handoffs/Preview/Bounds.antt =====
-- handoffs/payloads.py: the size of a handoff's preview.
use anytoolai_platform.Prelude.{
  ℕ, zero, suc, ◌+◌, ◌-◌, ◌≤◌, String, ◌==◌, Bool, true, false, ◌&&◌, ◌≡◌, refl, arith, inl, inr,
  Bool-cases, and_split, and_both, if◌then◌else◌, ltb, leb,
}
use anytoolai_platform.Prelude.Texts.{length, take}
use anytoolai_platform.Json.{
  Json, null, boolean, integer, negative, float, text, array, object, Items, nil, cons, Fields,
  empty, field,
}
use anytoolai_platform.Json.Dict.{insert}
use anytoolai_platform.Events.Sanitizer.{is_finite, size, items_count}
use anytoolai_platform.Events.Sanitizer.Bounded.{length-take, size-insert}
use anytoolai_platform.Handoffs.Preview.{
  preview_max_depth, preview_max_items, preview_max_string_length, preview_max_bytes,
  preview_truncated, preview_string, below_max_depth, sanitize_preview_value, preview_fields,
  preview_items, safe_preview,
}
use Prim.Native.String
use package.text.Mathlib.TextLemmas.{length-append}

-- A text that is kept, and the mark after it.
abbrev pub longest_text : ℕ
longest_text = 523

-- Objects and arrays nest to this many levels at most, each with the items that are kept at most,
-- and every text that is no key is within the length.
unfoldable mutual
  unfolding size items_count

  pub shown : ℕ → Json → Bool
  shown n (text s) = leb (length s) longest_text
  shown zero (object d) = false
  shown (suc n) (object d) = leb (size d) preview_max_items && fields_shown n d
  shown zero (array xs) = false
  shown (suc n) (array xs) = leb (items_count xs) preview_max_items && items_shown n xs
  shown n _ = true

  pub fields_shown : ℕ → Fields → Bool
  fields_shown n empty = true
  fields_shown n (field k v d) = shown n v && fields_shown n d

  pub items_shown : ℕ → Items → Bool
  items_shown n nil = true
  items_shown n (cons x xs) = shown n x && items_shown n xs

preview_string-fits : (s : String) → leb (length (preview_string s)) longest_text ≡ true
unfolding preview_string
preview_string-fits s = elim (Bool-cases (leb (length s) preview_max_string_length)) [
  | inl e ↦ rw (e, if◌then◌else◌) (longer (length s) e)
  | inr e ↦
      rw (e, if◌then◌else◌)
        (shortened (length-append (take 512 s) "[TRUNCATED]") (length-take 512 s))
]
  where
    longer : (x : ℕ) → leb x 512 ≡ true → leb x 523 ≡ true
    longer x h = ground arith

    shortened :
        length (String.◌++◌ (take 512 s) "[TRUNCATED]") ≡ length (take 512 s) + 11
        → length (take 512 s) ≤ 512
        → leb (length (String.◌++◌ (take 512 s) "[TRUNCATED]")) 523 ≡ true
    shortened h k = ground arith

shown-text : (n : ℕ) (s : String) → leb (length s) longest_text ≡ true → shown n (text s) ≡ true
unfolding shown
shown-text zero s h = h
shown-text (suc n) s h = h

fields_shown-insert :
    (n : ℕ) (k : String) (v : Json) (d : Fields)
    → shown n v ≡ true
    → fields_shown n d ≡ true
    → fields_shown n (insert k v d) ≡ true
unfolding insert fields_shown
fields_shown-insert n k v empty c h = and_both c refl
fields_shown-insert n k v (field j w d) c h =
    let (b, t) = and_split (shown n w) _ h in
    elim (Bool-cases (j == k)) [
      | inl f ↦ rw (f, if◌then◌else◌) (and_both c t)
      | inr f ↦ rw (f, if◌then◌else◌) (and_both b (fields_shown-insert n k v d c t))
    ]

within : (x : ℕ) → x ≤ preview_max_items → leb x preview_max_items ≡ true
within x h = ground arith

-- A value at a depth, with the levels that are left to it.
below_max_depth-shown :
    (n m : ℕ) (v : Json)
    → 4 ≤ n + m
    → ((i : ℕ) → m ≡ suc i → shown m v ≡ true)
    → shown m (below_max_depth n v) ≡ true
unfolding below_max_depth
below_max_depth-shown n m v h k = elim (Bool-cases (leb preview_max_depth n)) [
  | inl e ↦ rw (e, if◌then◌else◌) (shown-text m preview_truncated refl)
  | inr e ↦ rw (e, if◌then◌else◌) (k (m - 1) (left e))
]
  where
    left : leb 4 n ≡ false → m ≡ suc (m - 1)
    left e = ground arith

size-preview_fields :
    (n left : ℕ) (d done : Fields) → size (preview_fields n left d done) ≤ left + size done
unfolding preview_fields
size-preview_fields n left empty done = omega arith
size-preview_fields n zero (field k v d) done = omega arith
size-preview_fields n (suc left) (field k v d) done =
    omega (arith, size-preview_fields n left d _, size-insert k (sanitize_preview_value n v) done)

fits_empty : (x : ℕ) → x ≤ preview_max_items + size empty → x ≤ preview_max_items
unfolding size
fits_empty x h = omega arith

items_count-preview_items : (n left : ℕ) (xs : Items) → items_count (preview_items n left xs) ≤ left
unfolding preview_items items_count
items_count-preview_items n left nil = omega arith
items_count-preview_items n zero (cons x xs) = omega arith
items_count-preview_items n (suc left) (cons x xs) =
    omega (arith, items_count-preview_items n left xs)

unfoldable mutual
  unfolding sanitize_preview_value shown

  sanitize_preview_value-shown :
      (v : Json) (n m : ℕ) → 4 ≤ n + m → shown m (sanitize_preview_value n v) ≡ true
  sanitize_preview_value-shown null n m h = below_max_depth-shown n m null h (λ i f. refl)
  sanitize_preview_value-shown (boolean b) n m h =
      below_max_depth-shown n m (boolean b) h (λ i f. refl)
  sanitize_preview_value-shown (integer k) n m h =
      below_max_depth-shown n m (integer k) h (λ i f. refl)
  sanitize_preview_value-shown (negative k) n m h =
      below_max_depth-shown n m (negative k) h (λ i f. refl)
  sanitize_preview_value-shown (float r) n m h = below_max_depth-shown n m _ h (λ i f.
      elim (Bool-cases (is_finite r)) [
        | inl e ↦ rw (e, if◌then◌else◌) refl
        | inr e ↦ rw (e, if◌then◌else◌) refl
      ])
  sanitize_preview_value-shown (text s) n m h =
      below_max_depth-shown n m _ h (λ i f. shown-text m (preview_string s) (preview_string-fits s))
  sanitize_preview_value-shown (object d) n m h = below_max_depth-shown n m _ h (λ i f. rw f (
      and_both (within _ (fits_empty _ (size-preview_fields (suc n) preview_max_items d empty)))
        (preview_fields-shown d empty (suc n) preview_max_items i (omega (arith, h, f)) refl)))
  sanitize_preview_value-shown (array xs) n m h = below_max_depth-shown n m _ h (λ i f. rw f (
      and_both (within _ (items_count-preview_items (suc n) preview_max_items xs))
        (preview_items-shown xs (suc n) preview_max_items i (omega (arith, h, f)))))

  preview_fields-shown :
      (d done : Fields) (n left m : ℕ)
      → 4 ≤ n + m
      → fields_shown m done ≡ true
      → fields_shown m (preview_fields n left d done) ≡ true
  preview_fields-shown empty done n left m h k = k
  preview_fields-shown (field key v d) done n zero m h k = k
  preview_fields-shown (field key v d) done n (suc left) m h k =
      let kept = sanitize_preview_value-shown v n m h in
      preview_fields-shown d _ n left m h
        (fields_shown-insert m key (sanitize_preview_value n v) done kept k)

  preview_items-shown :
      (xs : Items) (n left m : ℕ) → 4 ≤ n + m → items_shown m (preview_items n left xs) ≡ true
  preview_items-shown nil n left m h = refl
  preview_items-shown (cons x xs) n zero m h = refl
  preview_items-shown (cons x xs) n (suc left) m h =
      let first = sanitize_preview_value-shown x n m h in
      and_both first (preview_items-shown xs n left m h)

summary_shown : shown 4 (object (field "summary" (text preview_truncated) empty)) ≡ true
unfolding shown
summary_shown = refl

preview-shown : (d : Fields) → shown 4 (object (preview_fields 1 preview_max_items d empty)) ≡ true
unfolding shown
preview-shown d =
    and_both (within _ (fits_empty _ (size-preview_fields 1 preview_max_items d empty)))
      (preview_fields-shown d empty 1 preview_max_items 3 (omega arith) refl)

-- The preview of a handoff, whatever the mapped payload was, nests to 4 levels at most with at most
-- 20 entries or items in each and texts of at most 523 characters, keys apart, and its encoding has
-- at most 8192 bytes, if the encoding of the summary that stands in for a large preview has.
pub preview_bounded :
    (encoded_size : Json → ℕ)
    → encoded_size (object (field "summary" (text preview_truncated) empty)) ≤ preview_max_bytes
    → (d : Fields)
    → (shown 4 (object (safe_preview encoded_size d)) ≡ true)
      × (encoded_size (object (safe_preview encoded_size d)) ≤ preview_max_bytes)
unfolding safe_preview
preview_bounded encoded_size summary d =
    let kept = preview_fields 1 preview_max_items d empty in
    elim (Bool-cases (ltb preview_max_bytes (encoded_size (object kept)))) [
      | inl e ↦ rw (e, if◌then◌else◌) (summary_shown, summary)
      | inr e ↦ rw (e, if◌then◌else◌) (preview-shown d, small (encoded_size (object kept)) e)
    ]
  where
    small : (x : ℕ) → ltb preview_max_bytes x ≡ false → x ≤ preview_max_bytes
    small x h = ground arith
