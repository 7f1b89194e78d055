-- ===== src/Events/Sanitizer/Bounded.antt =====
-- events/emitter.py: the bounds of JSON in the event log, and the parts of the sanitising.
use anytoolai_platform.Prelude.{
  ℕ, zero, suc, ◌+◌, ◌-◌, ◌≤◌, String, ◌==◌, Bool, true, false, ◌&&◌, ◌≡◌, refl, arith, inl, inr,
  Bool-cases, and_split, and_both, if◌then◌else◌, ltb, leb,
}
use anytoolai_platform.Prelude.Texts.{length, take}
use anytoolai_platform.Json.{
  Json, null, boolean, integer, negative, float, text, array, object, Items, nil, cons, Fields,
  empty, field,
}
use anytoolai_platform.Json.Dict.{insert}
use anytoolai_platform.Events.Sanitizer.{
  max_property_depth, max_property_items, max_property_string_length, is_finite_number,
  note_truncated, sanitize_string, size, items_count,
}
use Prim.Native.String
use package.text.Mathlib.TextLemmas.{length-append, length-cons}

-- Objects and arrays nest to this many levels at most, each with one more than the items that are
-- kept at most, and every text and key is within the length.
unfoldable mutual
  unfolding size items_count

  pub bounded : ℕ → Json → Bool
  bounded n (text s) = leb (length s) max_property_string_length
  bounded zero (object d) = false
  bounded (suc n) (object d) = leb (size d) (suc max_property_items) && fields_bounded n d
  bounded zero (array xs) = false
  bounded (suc n) (array xs) = leb (items_count xs) (suc max_property_items) && items_bounded n xs
  bounded n _ = true

  pub fields_bounded : ℕ → Fields → Bool
  fields_bounded n empty = true
  fields_bounded n (field k v d) =
      leb (length k) max_property_string_length && bounded n v && fields_bounded n d

  pub items_bounded : ℕ → Items → Bool
  items_bounded n nil = true
  items_bounded n (cons x xs) = bounded n x && items_bounded n xs

pub length-take : (n : ℕ) (s : String) → length (take n s) ≤ n
unfolding take
length-take zero s = omega arith
length-take (suc n) String.[] = omega arith
length-take (suc n) (String.◌∷◌ c s) = omega (arith, length-cons c (take n s), length-take n s)

pub sanitize_string-fits :
    (s : String) → leb (length (sanitize_string s)) max_property_string_length ≡ true
unfolding sanitize_string
sanitize_string-fits s = elim (Bool-cases (leb (length s) max_property_string_length)) [
  | inl e ↦ rw (e, if◌then◌else◌) e
  | inr e ↦
      rw (e, if◌then◌else◌)
        (shortened (length-append (take 1012 s) " [TRUNCATED]") (length-take 1012 s))
]
  where
    shortened :
        length (String.◌++◌ (take 1012 s) " [TRUNCATED]") ≡ length (take 1012 s) + 12
        → length (take 1012 s) ≤ 1012
        → leb (length (String.◌++◌ (take 1012 s) " [TRUNCATED]")) 1024 ≡ true
    shortened h k = ground arith

pub fields_bounded-field :
    (n : ℕ) (k : String) (v : Json) (d : Fields)
    → leb (length k) max_property_string_length ≡ true
    → bounded n v ≡ true
    → fields_bounded n d ≡ true
    → fields_bounded n (field k v d) ≡ true
unfolding fields_bounded
fields_bounded-field n k v d e c h = and_both (and_both e c) h

fields_bounded-parts :
    (n : ℕ) (k : String) (v : Json) (d : Fields)
    → fields_bounded n (field k v d) ≡ true
    → (leb (length k) max_property_string_length ≡ true)
      × (bounded n v ≡ true)
      × (fields_bounded n d ≡ true)
unfolding fields_bounded
fields_bounded-parts n k v d h =
    let (r, t) = and_split (leb (length k) max_property_string_length && bounded n v) _ h in
    let (a, b) = and_split (leb (length k) max_property_string_length) _ r in (a, b, t)

pub fields_bounded-insert :
    (n : ℕ) (k : String) (v : Json) (d : Fields)
    → leb (length k) max_property_string_length ≡ true
    → bounded n v ≡ true
    → fields_bounded n d ≡ true
    → fields_bounded n (insert k v d) ≡ true
unfolding insert
fields_bounded-insert n k v empty e c h = fields_bounded-field n k v empty e c h
fields_bounded-insert n k v (field j w d) e c h =
    let (a, b, t) = fields_bounded-parts n j w d h in
    elim (Bool-cases (j == k)) [
      | inl f ↦ rw (f, if◌then◌else◌) (fields_bounded-field n k v d e c t)
      | inr f ↦
          rw (f, if◌then◌else◌)
            (fields_bounded-field n j w (insert k v d) a b (fields_bounded-insert n k v d e c t))
    ]

pub size-insert : (k : String) (v : Json) (d : Fields) → size (insert k v d) ≤ suc (size d)
unfolding insert size
size-insert k v empty = omega arith
size-insert k v (field j w d) = ground (arith, size-insert k v d)

pub bounded-text :
    (n : ℕ) (s : String)
    → leb (length s) max_property_string_length ≡ true
    → bounded n (text s) ≡ true
unfolding bounded
bounded-text zero s h = h
bounded-text (suc n) s h = h

pub number-bounded : (n : ℕ) (v : Json) → is_finite_number v ≡ true → bounded n v ≡ true
unfolding bounded is_finite_number
number-bounded zero (integer k) h = refl
number-bounded (suc n) (integer k) h = refl
number-bounded zero (negative k) h = refl
number-bounded (suc n) (negative k) h = refl
number-bounded zero (float k) h = refl
number-bounded (suc n) (float k) h = refl
number-bounded n null h = cc
number-bounded n (boolean b) h = cc
number-bounded n (text s) h = cc
number-bounded n (object d) h = cc
number-bounded n (array d) h = cc

pub deep_enough : (n m : ℕ) → 7 ≤ n + m → ltb max_property_depth n ≡ false → m ≡ suc (suc (m - 2))
deep_enough n m h e = ground arith

pub object-bounded :
    (n : ℕ) (d : Fields)
    → size d ≤ suc max_property_items
    → fields_bounded n d ≡ true
    → bounded (suc n) (object d) ≡ true
unfolding bounded
object-bounded n d h k = and_both (within (size d) h) k
  where
    within : (x : ℕ) → x ≤ 51 → leb x 51 ≡ true
    within x h = ground arith

pub note_truncated-bounded :
    (n count : ℕ) (d : Fields)
    → size d ≤ max_property_items
    → fields_bounded n d ≡ true
    → (size (note_truncated count d) ≤ suc max_property_items)
      × (fields_bounded n (note_truncated count d) ≡ true)
unfolding note_truncated is_finite_number
note_truncated-bounded n count d h k = elim (Bool-cases (ltb max_property_items count)) [
  | inl e ↦
      rw (e, if◌then◌else◌)
        (
          omega (arith, size-insert "_truncated_items" (integer (count - max_property_items)) d),
          fields_bounded-insert n "_truncated_items" (integer (count - max_property_items)) d refl
              (number-bounded n (integer (count - max_property_items)) refl) k,
        )
  | inr e ↦ rw (e, if◌then◌else◌) (omega arith, k)
]
