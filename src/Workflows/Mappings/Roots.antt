-- ===== src/Workflows/Mappings/Roots.antt =====
-- workflows/mappings.py: a target in the context, read as a source path.
use anytoolai_platform.Prelude.{
  String, false, Option, none, List, [], ◌∷◌, ◌≡◌, ◌≢◌, refl, sym, ap, ◌∙◌, eq_iff, arith, inl, inr,
  Bool-cases,
}
use Prim.Native.Char.{Char, code}
use Prim.Native.String
use package.text.Mathlib.TextEquality.{starts_with_iff}
use package.text.Mathlib.TextLemmas.{cons-append, head-eq_of_cons-eq}
use anytoolai_platform.Prelude.Texts.{split, split_from, push, starts_with}
use anytoolai_platform.Prelude.Texts.Parts.{split_from-head}
use anytoolai_platform.Json.{Json, null}
use anytoolai_platform.Workflows.Errors.{done, >>=-eq-done}
use anytoolai_platform.Workflows.Mappings.{
  context, parse_context_target_path, context_parts, require_plain_dotted_path, rooted_source,
  after_prefix,
}
use anytoolai_platform.Workflows.Mappings.Resolution.{parse_source_path}

heads_eq : {x y : String} {xs ys : List String} → x ∷ xs ≡ y ∷ ys → x ≡ y
heads_eq h = cc

abbrev letter_l : Char
letter_l = "l"

abbrev letter_c : Char
letter_c = "c"

chars_differ : letter_l ≢ letter_c
chars_differ h = let same : code letter_l ≡ code letter_c = ap code h in omega arith

context_not_literal :
    (t : String) (ps : List String) → split 46 t ≡ "context" ∷ ps → starts_with t "literal:" ≡ false
unfolding split split_from push
context_not_literal t ps h = elim (Bool-cases (starts_with t "literal:")) [
  | inr e ↦ e
  | inl e ↦
      let (u, f) = (starts_with_iff t "literal:").0 e in
      let (v, qs, g) = split_from-head 46 "l" "" (String.◌++◌ "iteral:" u) in
      let both = sym g ∙ (ap (split 46) (sym (cons-append "l" "iteral:" u) ∙ f) ∙ h) in
      absurd (chars_differ (head-eq_of_cons-eq (heads_eq both)))
]

context_parts-inv :
    (ps q : List String)
    → context_parts ps ≡ done q
    → (x : String) × (p : List String) × (q ≡ x ∷ p) × (ps ≡ "context" ∷ x ∷ p)
unfolding context_parts
context_parts-inv [] q h = cc
context_parts-inv (r ∷ []) q h = cc
context_parts-inv (r ∷ x ∷ p) q h =
    (x, p, ground arith, ap (λ y. y ∷ x ∷ p) ((eq_iff r "context").0 (ground arith)))

pub parse_context_target_path-inv :
    (t : String) (q : List String)
    → parse_context_target_path t ≡ done q
    → (x : String) × (p : List String) × (q ≡ x ∷ p)
      × (split 46 t ≡ "context" ∷ x ∷ p)
      × (require_plain_dotted_path t ≡ done tt)
unfolding parse_context_target_path
parse_context_target_path-inv t q h =
    let (_, e, h₁) = >>=-eq-done (require_plain_dotted_path t) _ h in
    let (x, p, f, g) = context_parts-inv (split 46 t) q h₁ in (x, p, f, g, e)

pub context_target_as_source :
    (parse_json : String → Option Json) (t : String) (q : List String)
    → parse_context_target_path t ≡ done q
    → parse_source_path parse_json t
      ≡ done (record { root = context; path = q; step_id = none; literal_value = null })
unfolding parse_source_path rooted_source after_prefix
context_target_as_source parse_json t q h =
    let (x, p, f, g, e) = parse_context_target_path-inv t q h in
    rw (context_not_literal t (x ∷ p) g, parse_source_path, e, g, f) refl
