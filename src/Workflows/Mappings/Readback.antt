-- ===== src/Workflows/Mappings/Readback.antt =====
-- workflows/mappings.py: a `context.*` source of a later step, after `apply_output_mapping`.
use anytoolai_platform.Prelude.{String, not, Option, some, List, [], ◌∷◌, ◌++◌, ◌≡◌, refl, sym}
use anytoolai_platform.Json.{Json, object, Fields, empty}
use anytoolai_platform.Json.Dict.{lookup, insert, lookup-insert_self}
use anytoolai_platform.Workflows.Errors.{Outcome, done, failed, >>=-eq-done, fail_if}
use anytoolai_platform.Workflows.Mappings.{
  Mapping, Sources, set_target_value, parse_context_target_path, walk_value, resolve_reference,
  root_value,
}
use anytoolai_platform.Workflows.Mappings.Resolution.{
  parse_source_path, resolve_source_path, is_output_source, output_value, apply_entries,
  apply_output_mapping,
}
use anytoolai_platform.Workflows.Mappings.Targets.{walk_after_set}
use anytoolai_platform.Workflows.Mappings.Roots.{context_target_as_source}

module _ (parse_json : String → Option Json) where
  -- The first entry of a mapping that was applied to its end.
  apply_entries-first :
      (step_id t p : String) (es : Mapping) (s : Sources) (a d w : Fields)
      → apply_entries parse_json step_id ((t, p) ∷ es) s a ≡ (done d, w)
      → (v : Json) × (c : Fields) × (output_value parse_json step_id t p s ≡ done (v, c))
        × (apply_entries parse_json step_id es (record s { context = c }) (insert t v a)
            ≡ (done d, w))
  unfolding apply_entries
  apply_entries-first step_id t p es s a d w h = go (output_value parse_json step_id t p s) refl h
    where
      go :
          (o : Outcome (Json × Fields))
          → output_value parse_json step_id t p s ≡ o
          → let next : Outcome Fields × Fields = elim o [
            | failed e ↦ (failed e, s.context)
            | done (value, written) ↦
                apply_entries parse_json step_id es
                  (record s { context = written })
                  (insert t value a)
          ] in
            next ≡ (done d, w)
            → (v : Json) × (c : Fields) × (output_value parse_json step_id t p s ≡ done (v, c))
              × (apply_entries parse_json step_id es (record s { context = c }) (insert t v a)
                  ≡ (done d, w))
      go (failed e) f h = cc
      go (done (v, c)) f h = (v, c, f, h)

  apply_entries-append :
      (step_id : String) (es fs : Mapping) (s : Sources) (a d w : Fields)
      → apply_entries parse_json step_id (es ++ fs) s a ≡ (done d, w)
      → (c : Fields) × (b : Fields) × (apply_entries parse_json step_id fs
            (record s { context = c })
            b
          ≡ (done d, w))
  apply_entries-append step_id [] fs s a d w h = (s.context, a, h)
  apply_entries-append step_id ((t, p) ∷ es) fs s a d w h =
      let (v, c, _, k) = apply_entries-first step_id t p (es ++ fs) s a d w h in
      apply_entries-append step_id es fs (record s { context = c }) (insert t v a) d w k

  output_value-set :
      (step_id t p : String) (s : Sources) (v : Json) (c : Fields)
      → output_value parse_json step_id t p s ≡ done (v, c)
      → (q : List String) × (parse_context_target_path t ≡ done q)
        × (walk_value (object c) q ≡ done v)
  unfolding output_value
  output_value-set step_id t p s v c h =
      let (r, _, h₁) = >>=-eq-done (parse_source_path parse_json p) _ h in
      let (_, _, h₂) = >>=-eq-done (fail_if (not (is_output_source step_id r)) _) _ h₁ in
      let (u, _, h₃) = >>=-eq-done (resolve_source_path parse_json p s) _ h₂ in
      let (q, e, h₄) = >>=-eq-done (parse_context_target_path t) _ h₃ in
      let (x, f, h₅) = >>=-eq-done (set_target_value s.context q u) _ h₄ in
      let same : (u ≡ v) × (x ≡ c) = (cc, cc) in
      (q, e, rw (sym same.0, sym same.1) (walk_after_set s.context x q u f))

  read_context :
      (t : String) (q : List String) (v : Json) (s : Sources)
      → parse_context_target_path t ≡ done q
      → walk_value (object s.context) q ≡ done v
      → resolve_source_path parse_json t s ≡ done v
  unfolding resolve_source_path resolve_reference root_value
  read_context t q v s e h = rw (context_target_as_source parse_json t q e, resolve_source_path) h

  read_back_last :
      (t p step_id : String) (s' : Sources) (b d w : Fields) (s : Sources)
      → apply_entries parse_json step_id ((t, p) ∷ []) s' b ≡ (done d, w)
      → s.context ≡ w
      → (v : Json) × (lookup t d ≡ some v) × (resolve_source_path parse_json t s ≡ done v)
  unfolding apply_entries
  read_back_last t p step_id s' b d w s h c =
      let (v, x, e, k) = apply_entries-first step_id t p [] s' b d w h in
      let same : (insert t v b ≡ d) × (x ≡ w) = (cc, cc) in
      let (q, f, g) = output_value-set step_id t p s' v x e in
      (v, rw (sym same.0) (lookup-insert_self t v b), read_context t q v s f (rw (c, sym same.1) g))

  -- After an output mapping has been applied to its end, the target of its last entry, read as a
  -- source path by a later step with the context that it left, resolves to the value that the
  -- result has under that target.
  pub output_read_back :
      (es : Mapping) (t p step_id : String) (output : Json) (before d w : Fields)
      (scenario_in : Option Fields) (s : Sources)
      → apply_output_mapping parse_json (es ++ (t, p) ∷ []) step_id output before scenario_in
        ≡ (done d, w)
      → s.context ≡ w
      → (v : Json) × (lookup t d ≡ some v) × (resolve_source_path parse_json t s ≡ done v)
  unfolding apply_output_mapping
  output_read_back [] t p step_id output before d w scenario_in s h c =
      read_back_last t p step_id _ empty d w s h c
  output_read_back (e ∷ es) t p step_id output before d w scenario_in s h c =
      let (x, b, k) = apply_entries-append step_id (e ∷ es) ((t, p) ∷ []) _ empty d w h in
      read_back_last t p step_id _ b d w s k c
