-- ===== src/Workflows/Mappings/Targets.antt =====
-- workflows/mappings.py: `_set_target_value` against `_walk_value`.
use anytoolai_platform.Prelude.{
  String, ◌==◌, Bool, true, false, some, Option-cases, inl, inr, List, [], ◌∷◌, ◌≡◌, refl, sym, ap,
  ◌∙◌, eq_iff, Bool-cases, if◌then◌else◌,
}
use anytoolai_platform.Json.{
  Json, null, boolean, integer, negative, float, text, array, object, Fields,
}
use anytoolai_platform.Json.Dict.{lookup, insert, lookup-insert, lookup-insert_self}
use anytoolai_platform.Workflows.Errors.{done, >>=-eq-done}
use anytoolai_platform.Workflows.Mappings.{walk_value, child, set_target_value}

-- Neither path is a prefix of the other.
unfoldable pub diverges : List String → List String → Bool
diverges [] q = false
diverges (x ∷ p) [] = false
diverges (x ∷ p) (y ∷ q) = let below = diverges p q in if x == y then below else true

pub done_inj : {A : Type 0} {a b : A} → done a ≡ done b → a ≡ b
done_inj h = cc

-- One segment of a walk.
pub walk-found :
    (d : Fields) (x : String) (w : Json) (p : List String)
    → lookup x d ≡ some w
    → walk_value (object d) (x ∷ p) ≡ walk_value w p
unfolding walk_value
walk-found d x w p e = rw (e, walk_value) refl

-- A walk of more than one segment that returns has found a value at the first.
pub walk-next :
    (d : Fields) (x : String) (w : Json) (p : List String)
    → walk_value (object d) (x ∷ p) ≡ done w
    → (v : Json) × (lookup x d ≡ some v) × (walk_value v p ≡ done w)
unfolding walk_value
walk-next d x w p h = elim (Option-cases (lookup x d)) [
  | inl e ↦ absurd (cc)
  | inr (v, e) ↦ (v, e, sym (walk-found d x v p e) ∙ h)
]

-- After a value has been set at a target, a walk along the target's path finds it.
pub walk_after_set :
    (d d' : Fields) (p : List String) (v : Json)
    → set_target_value d p v ≡ done d'
    → walk_value (object d') p ≡ done v
unfolding set_target_value walk_value
walk_after_set d d' [] v h = cc
walk_after_set d d' (x ∷ []) v h =
    rw (sym (done_inj h)) (walk-found (insert x v d) x v [] (lookup-insert_self x v d))
walk_after_set d d' (x ∷ y ∷ p) v h =
    let (current, _, h₁) = >>=-eq-done (child (lookup x d)) _ h in
    let (below, e, h₂) = >>=-eq-done (set_target_value current (y ∷ p) v) _ h₁ in
    rw (sym (done_inj h₂)) (
      walk-found (insert x (object below) d) x (object below) (y ∷ p) (lookup-insert_self x _ d)
      ∙ walk_after_set current below (y ∷ p) v e)

-- What was at another key is there still.
walk-insert_other :
    (d : Fields) (x y : String) (v w : Json) (q : List String)
    → (x == y) ≡ false
    → walk_value (object d) (y ∷ q) ≡ done w
    → walk_value (object (insert x v d)) (y ∷ q) ≡ done w
walk-insert_other d x y v w q n h =
    let (u, e, r) = walk-next d y w q h in
    walk-found (insert x v d) y u q (lookup-insert x y v d ∙ rw (n, if◌then◌else◌) e) ∙ r

-- The dict that a segment leads to, of a value that can be walked into.
child-object :
    (u : Json) (c : Fields) (z : String) (q : List String) (w : Json)
    → child (some u) ≡ done c
    → walk_value u (z ∷ q) ≡ done w
    → u ≡ object c
unfolding child walk_value
child-object (object d) c z q w e h = ap object (done_inj e)
child-object null c z q w e h = cc
child-object (boolean b) c z q w e h = cc
child-object (integer n) c z q w e h = cc
child-object (negative n) c z q w e h = cc
child-object (float t) c z q w e h = cc
child-object (text t) c z q w e h = cc
child-object (array xs) c z q w e h = cc

diverges-same :
    (x y : String) (p q : List String) → (x == y) ≡ true → diverges (x ∷ p) (y ∷ q) ≡ diverges p q
unfolding diverges
diverges-same x y p q m = rw (m, if◌then◌else◌, diverges) refl

-- Along a diverging path, a walk that found a value before the write finds it after.
pub walk_beside_set :
    (d d' : Fields) (p q : List String) (v w : Json)
    → set_target_value d p v ≡ done d'
    → diverges p q ≡ true
    → walk_value (object d) q ≡ done w
    → walk_value (object d') q ≡ done w
unfolding set_target_value diverges
walk_beside_set d d' [] q v w h n r = cc
walk_beside_set d d' (x ∷ p) [] v w h n r = cc
walk_beside_set d d' (x ∷ []) (y ∷ q) v w h n r = elim (Bool-cases (x == y)) [
  | inl e ↦ cc
  | inr e ↦ rw (sym (done_inj h)) (walk-insert_other d x y v w q e r)
]
walk_beside_set d d' (x ∷ z ∷ p) (y ∷ []) v w h n r =
    let (current, e, h₁) = >>=-eq-done (child (lookup x d)) _ h in
    let (below, e₂, h₂) = >>=-eq-done (set_target_value current (z ∷ p) v) _ h₁ in
    elim (Bool-cases (x == y)) [
      | inl m ↦ cc
      | inr m ↦ rw (sym (done_inj h₂)) (walk-insert_other d x y (object below) w [] m r)
    ]
walk_beside_set d d' (x ∷ z ∷ p) (y ∷ a ∷ q) v w h n r =
    let (current, e, h₁) = >>=-eq-done (child (lookup x d)) _ h in
    let (below, e₂, h₂) = >>=-eq-done (set_target_value current (z ∷ p) v) _ h₁ in
    rw (sym (done_inj h₂)) (elim (Bool-cases (x == y)) [
      | inr m ↦ walk-insert_other d x y (object below) w (a ∷ q) m r
      | inl m ↦
          let (u, f, s) = walk-next d y w (a ∷ q) r in
          let at = ap (λ k. lookup k d) ((eq_iff x y).0 m) ∙ f in
          let o = child-object u current a q w (sym (ap child at) ∙ e) s in
          walk-found (insert x (object below) d) y (object below) (a ∷ q)
            (lookup-insert x y (object below) d ∙ rw (m, if◌then◌else◌) refl)
          ∙ walk_beside_set current below (z ∷ p) (a ∷ q) v w e₂
              (sym (diverges-same x y (z ∷ p) (a ∷ q) m) ∙ n)
              (sym (ap (λ j. walk_value j (a ∷ q)) o) ∙ s)
    ])
