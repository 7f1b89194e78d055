-- ===== src/Workflows/Mappings/Inputs.antt =====
-- workflows/mappings.py: the input that `resolve_step_input` builds, entry by entry.
use anytoolai_platform.Prelude.{
  String, Bool, true, ◌&&◌, Option, none, some, List, [], ◌∷◌, ◌++◌, ◌≡◌, refl, sym, ap, ◌∙◌, arith,
}
use anytoolai_platform.Json.{Json, object, Fields, empty}
use anytoolai_platform.Workflows.Errors.{Outcome, done, failed, >>=-eq-done}
use anytoolai_platform.Workflows.Mappings.{Mapping, Sources, walk_value, parse_target_path}
use anytoolai_platform.Workflows.Mappings.Resolution.{
  input_value, set_input, resolve_entries, resolve_step_input,
}
use anytoolai_platform.Workflows.Mappings.Targets.{
  diverges, walk_after_set, walk_beside_set, done_inj,
}

-- Every target of the mapping that can be parsed diverges from the path.
unfoldable pub all_diverge : List String → Mapping → Bool
unfolding diverges parse_target_path
all_diverge q [] = true
all_diverge q ((target_path, source_path) ∷ entries) = elim (parse_target_path target_path) [
  | failed e ↦ all_diverge q entries
  | done p ↦ diverges p q && all_diverge q entries
]

all_diverge-split :
    (q : List String) (t p : String) (es : Mapping)
    → all_diverge q ((t, p) ∷ es) ≡ true
    → (all_diverge q es ≡ true)
      × ((path : List String) → parse_target_path t ≡ done path → diverges path q ≡ true)
unfolding all_diverge
all_diverge-split q t p es a = go (parse_target_path t) a
  where
    go :
        (o : Outcome (List String))
        → elim o [ failed e ↦ all_diverge q es | done p ↦ diverges p q && all_diverge q es ] ≡ true
        → (all_diverge q es ≡ true)
          × ((path : List String) → o ≡ done path → diverges path q ≡ true)
    go (failed e) a = (a, λ path h. absurd (cc))
    go (done p) a = (ground arith, λ path h. rw (sym (done_inj h)) (ground arith))

module _ (parse_json : String → Option Json) where
  resolve_entries-append :
      (es fs : Mapping) (s : Sources) (r d : Fields)
      → resolve_entries parse_json (es ++ fs) s r ≡ done d
      → (m : Fields) × (resolve_entries parse_json fs s m ≡ done d)
  unfolding resolve_entries
  resolve_entries-append [] fs s r d h = (r, h)
  resolve_entries-append ((t, p) ∷ es) fs s r d h =
      let (v, _, h₁) = >>=-eq-done (input_value parse_json p s) _ h in
      let (m, _, h₂) = >>=-eq-done (set_input r t v) _ h₁ in resolve_entries-append es fs s m d h₂

  -- One entry whose target diverges from the path.
  set_input-beside :
      (q : List String) (w : Json) (r m : Fields) (t p : String) (v : Option Json) (es : Mapping)
      → all_diverge q ((t, p) ∷ es) ≡ true
      → set_input r t v ≡ done m
      → walk_value (object r) q ≡ done w
      → (walk_value (object m) q ≡ done w) × (all_diverge q es ≡ true)
  unfolding set_input
  set_input-beside q w r m t p none es a h k =
      (rw (sym (done_inj h)) k, (all_diverge-split q t p es a).0)
  set_input-beside q w r m t p (some v) es a h k =
      let (path, e, h₁) = >>=-eq-done (parse_target_path t) _ h in
      let (rest, beside) = all_diverge-split q t p es a in
      (walk_beside_set r m path q v w h₁ (beside path e) k, rest)

  entries-beside :
      (q : List String) (w : Json) (es : Mapping) (s : Sources) (r d : Fields)
      → all_diverge q es ≡ true
      → resolve_entries parse_json es s r ≡ done d
      → walk_value (object r) q ≡ done w
      → walk_value (object d) q ≡ done w
  unfolding resolve_entries
  entries-beside q w [] s r d a h k = rw (sym (done_inj h)) k
  entries-beside q w ((t, p) ∷ es) s r d a h k =
      let (v, _, h₁) = >>=-eq-done (input_value parse_json p s) _ h in
      let (m, e, h₂) = >>=-eq-done (set_input r t v) _ h₁ in
      let (kept, rest) = set_input-beside q w r m t p v es a e k in
      entries-beside q w es s m d rest h₂ kept

  nonempty_resolves :
      (es fs : Mapping) (t p : String) (s : Sources)
      → resolve_step_input parse_json (es ++ (t, p) ∷ fs) s
        ≡ resolve_entries parse_json (es ++ (t, p) ∷ fs) s empty
  unfolding resolve_step_input
  nonempty_resolves [] fs t p s = refl
  nonempty_resolves (x ∷ es) fs t p s = refl

  -- The entry itself: the value stands at its target.
  resolve_entries-first :
      (fs : Mapping) (t p : String) (q : List String) (s : Sources) (v : Json) (r d : Fields)
      → resolve_entries parse_json ((t, p) ∷ fs) s r ≡ done d
      → input_value parse_json p s ≡ done (some v)
      → parse_target_path t ≡ done q
      → all_diverge q fs ≡ true
      → walk_value (object d) q ≡ done v
  unfolding resolve_entries set_input
  resolve_entries-first fs t p q s v r d h i e a =
      let (o, e₀, h₀) = >>=-eq-done (input_value parse_json p s) _ h in
      let (m, e₁, h₁) = >>=-eq-done (set_input r t o) _ h₀ in
      let e₃ = ap (set_input r t) (done_inj (sym i ∙ e₀)) ∙ e₁ in
      let (path, e₂, h₂) = >>=-eq-done (parse_target_path t) _ e₃ in
      let set = walk_after_set r m path v h₂ in
      entries-beside q v fs s m d a h₁ (rw (done_inj (sym e ∙ e₂)) set)

  -- If the resolution of a step's input returns, then the value that an entry of the mapping
  -- resolved to stands at the entry's target in the result, whatever entries come before it,
  -- provided that the targets of the entries after it diverge from its own.
  pub entry_reaches_target :
      (es fs : Mapping) (t p : String) (q : List String) (s : Sources) (v : Json) (d : Fields)
      → resolve_step_input parse_json (es ++ (t, p) ∷ fs) s ≡ done d
      → input_value parse_json p s ≡ done (some v)
      → parse_target_path t ≡ done q
      → all_diverge q fs ≡ true
      → walk_value (object d) q ≡ done v
  entry_reaches_target es fs t p q s v d h i e a =
      let (m, k) =
        resolve_entries-append es ((t, p) ∷ fs) s empty d
          (sym (nonempty_resolves es fs t p s) ∙ h) in
      resolve_entries-first fs t p q s v m d k i e a
