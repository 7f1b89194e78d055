-- ===== src/Json/Entries.antt =====
-- A test of every entry of a JSON value, at every depth.
use anytoolai_platform.Prelude.{
  String, ◌==◌, Bool, true, ◌&&◌, ◌≡◌, refl, sym, ◌∙◌, Bool-cases, inl, inr, and_split, and_both,
  if◌then◌else◌,
}
use anytoolai_platform.Json.{Json, array, object, Items, nil, cons, Fields, empty, field}
use anytoolai_platform.Json.Dict.{insert}

module _ (entry : String → Json → Bool) where
  unfoldable mutual
    pub entries_hold : Json → Bool
    entries_hold (object d) = fields_hold d
    entries_hold (array xs) = items_hold xs
    entries_hold _ = true

    pub fields_hold : Fields → Bool
    fields_hold empty = true
    fields_hold (field key value d) = entry key value && entries_hold value && fields_hold d

    pub items_hold : Items → Bool
    items_hold nil = true
    items_hold (cons x xs) = entries_hold x && items_hold xs

  pub fields_hold-field :
      (k : String) (v : Json) (d : Fields)
      → fields_hold (field k v d) ≡ (entry k v && entries_hold v && fields_hold d)
  unfolding fields_hold
  fields_hold-field k v d = refl

  pub items_hold-cons :
      (x : Json) (xs : Items) → items_hold (cons x xs) ≡ (entries_hold x && items_hold xs)
  unfolding items_hold
  items_hold-cons x xs = refl

  fields_hold-built :
      (k : String) (v : Json) (d : Fields)
      → entry k v ≡ true
      → entries_hold v ≡ true
      → fields_hold d ≡ true
      → fields_hold (field k v d) ≡ true
  fields_hold-built k v d e c h = fields_hold-field k v d ∙ and_both (and_both e c) h

  fields_hold-parts :
      (k : String) (v : Json) (d : Fields)
      → fields_hold (field k v d) ≡ true
      → (entry k v ≡ true) × (entries_hold v ≡ true) × (fields_hold d ≡ true)
  fields_hold-parts k v d h =
      let (r, t) = and_split (entry k v && entries_hold v) _ (sym (fields_hold-field k v d) ∙ h) in
      let (a, b) = and_split (entry k v) _ r in (a, b, t)

  fields_hold-empty : fields_hold empty ≡ true
  unfolding fields_hold
  fields_hold-empty = refl

  pub fields_hold-insert :
      (k : String) (v : Json) (d : Fields)
      → entry k v ≡ true
      → entries_hold v ≡ true
      → fields_hold d ≡ true
      → fields_hold (insert k v d) ≡ true
  unfolding insert
  fields_hold-insert k v empty e c h = fields_hold-built k v empty e c fields_hold-empty
  fields_hold-insert k v (field j w d) e c h =
      let (a, b, t) = fields_hold-parts j w d h in
      elim (Bool-cases (j == k)) [
        | inl f ↦ rw (f, if◌then◌else◌) (fields_hold-built k v d e c t)
        | inr f ↦
            rw (f, if◌then◌else◌)
              (fields_hold-built j w (insert k v d) a b (fields_hold-insert k v d e c t))
      ]
