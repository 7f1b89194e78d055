-- ===== src/Handoffs/Mapping/Reached.antt =====
-- handoffs/payloads.py: what `_apply_mapping` writes, entry by entry, by way of the setter of
-- workflows/mappings.py.
use anytoolai_platform.Prelude.{
  String, Bool, true, ◌&&◌, Option, none, some, List, [], ◌∷◌, ◌++◌, ◌≡◌, refl, sym, ap, ◌∙◌,
  and_split,
}
use anytoolai_platform.Prelude.Texts.{split}
use anytoolai_platform.Json.{
  Json, null, boolean, integer, negative, float, text, array, object, Fields, empty,
}
use anytoolai_platform.Json.Dict.{lookup}
use anytoolai_platform.Workflows.Errors.{done}
use anytoolai_platform.Workflows.Mappings.{Mapping, any_empty, walk_value, child, set_target_value}
use anytoolai_platform.Workflows.Mappings.Targets.{diverges, walk_after_set, walk_beside_set}
use anytoolai_platform.Handoffs.Mapping.{
  Built, built, payload_error, error_if, ◌>>=◌, default_child, set_parts, set_path, source_value,
  map_entries, apply_mapping,
}

>>=-eq-built :
    {A B : Type 0} (m : Built A) (f : A → Built B) {b : B}
    → (m >>= f) ≡ built b
    → (a : A) × (m ≡ built a) × (f a ≡ built b)
>>=-eq-built (built a) f h = (a, refl, h)
>>=-eq-built (payload_error e) f h = cc

built_inj : {A : Type 0} {a b : A} → built a ≡ built b → a ≡ b
built_inj h = cc

default_child-same : (o : Option Json) (d : Fields) → default_child o ≡ built d → child o ≡ done d
unfolding default_child child
default_child-same none d h = ap done (built_inj h)
default_child-same (some (object e)) d h = ap done (built_inj h)
default_child-same (some null) d h = cc
default_child-same (some (boolean b)) d h = cc
default_child-same (some (integer n)) d h = cc
default_child-same (some (negative n)) d h = cc
default_child-same (some (float r)) d h = cc
default_child-same (some (text s)) d h = cc
default_child-same (some (array xs)) d h = cc

-- Where it returns, the setter of the workflows' targets returns the same.
set_parts-same :
    (d d' : Fields) (p : List String) (v : Json)
    → set_parts d p v ≡ built d'
    → set_target_value d p v ≡ done d'
unfolding set_parts set_target_value
set_parts-same d d' [] v h = cc
set_parts-same d d' (x ∷ []) v h = ap done (built_inj h)
set_parts-same d d' (x ∷ y ∷ p) v h =
    let (current, e, h₁) = >>=-eq-built (default_child (lookup x d)) _ h in
    let (below, e₁, h₂) = >>=-eq-built (set_parts current (y ∷ p) v) _ h₁ in
    rw (default_child-same (lookup x d) current e, set_parts-same current below (y ∷ p) v e₁)
      (ap done (built_inj h₂))

set_path-same :
    (d d' : Fields) (t : String) (v : Json)
    → set_path d t v ≡ built d'
    → set_target_value d (split 46 t) v ≡ done d'
unfolding set_path
set_path-same d d' t v h =
    let (_, _, h₁) =
      >>=-eq-built (error_if (any_empty (split 46 t)) "invalid handoff target path") _ h in
    set_parts-same d d' (split 46 t) v h₁

-- Every target of the mapping diverges from the path.
unfoldable pub targets_diverge : List String → Mapping → Bool
unfolding diverges
targets_diverge q [] = true
targets_diverge q ((target_path, source_path) ∷ entries) =
    diverges (split 46 target_path) q && targets_diverge q entries

-- No target of the mapping is below another or the same, which the loader of the configuration
-- checks of the mappings of a handoff (`_find_handoff_mapping_target_conflict`).
unfoldable pub prefix_free : Mapping → Bool
unfolding targets_diverge
prefix_free [] = true
prefix_free ((target_path, source_path) ∷ entries) =
    targets_diverge (split 46 target_path) entries && prefix_free entries

prefix_free-after :
    (es fs : Mapping) (t p : String)
    → prefix_free (es ++ (t, p) ∷ fs) ≡ true
    → targets_diverge (split 46 t) fs ≡ true
unfolding prefix_free
prefix_free-after [] fs t p h = (and_split (targets_diverge (split 46 t) fs) (prefix_free fs) h).0
prefix_free-after ((u, r) ∷ es) fs t p h =
    prefix_free-after es fs t p
      ((and_split (targets_diverge (split 46 u) (es ++ (t, p) ∷ fs)) _ h).1)

module _ (parse_json : String → Option Json) (allow_literal : Bool) (artifact : Fields) where
  map_entries-append :
      (es fs : Mapping) (r d : Fields)
      → map_entries parse_json allow_literal artifact (es ++ fs) r ≡ built d
      → (m : Fields) × (map_entries parse_json allow_literal artifact fs m ≡ built d)
  unfolding map_entries
  map_entries-append [] fs r d h = (r, h)
  map_entries-append ((t, p) ∷ es) fs r d h =
      let (v, _, h₁) = >>=-eq-built (source_value parse_json allow_literal artifact p) _ h in
      let (m, _, h₂) = >>=-eq-built (set_path r t v) _ h₁ in map_entries-append es fs m d h₂

  map_entries-beside :
      (q : List String) (w : Json) (es : Mapping) (r d : Fields)
      → targets_diverge q es ≡ true
      → map_entries parse_json allow_literal artifact es r ≡ built d
      → walk_value (object r) q ≡ done w
      → walk_value (object d) q ≡ done w
  unfolding map_entries targets_diverge
  map_entries-beside q w [] r d a h k = rw (sym (built_inj h)) k
  map_entries-beside q w ((t, p) ∷ es) r d a h k =
      let (v, _, h₁) = >>=-eq-built (source_value parse_json allow_literal artifact p) _ h in
      let (m, e, h₂) = >>=-eq-built (set_path r t v) _ h₁ in
      let (here, rest) = and_split (diverges (split 46 t) q) (targets_diverge q es) a in
      map_entries-beside q w es m d rest h₂
        (walk_beside_set r m (split 46 t) q v w (set_path-same r m t v e) here k)

  -- If the mapping of a handoff's payload returns, and no target of it is below another or the
  -- same, then the value that an entry's source resolved to stands at the entry's target in the
  -- payload.
  pub entry_reaches_payload :
      (es fs : Mapping) (t p : String) (v : Json) (d : Fields)
      → apply_mapping parse_json allow_literal artifact (es ++ (t, p) ∷ fs) ≡ built d
      → source_value parse_json allow_literal artifact p ≡ built v
      → prefix_free (es ++ (t, p) ∷ fs) ≡ true
      → walk_value (object d) (split 46 t) ≡ done v
  unfolding apply_mapping map_entries
  entry_reaches_payload es fs t p v d h i free =
      let (r, k) = map_entries-append es ((t, p) ∷ fs) empty d h in
      let (w, e, k₁) = >>=-eq-built (source_value parse_json allow_literal artifact p) _ k in
      let (m, e₁, k₂) = >>=-eq-built (set_path r t w) _ k₁ in
      let set = walk_after_set r m (split 46 t) w (set_path-same r m t w e₁) in
      map_entries-beside (split 46 t) v fs m d (prefix_free-after es fs t p free) k₂
        (rw (built_inj (sym i ∙ e)) set)
