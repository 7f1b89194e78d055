-- ===== src/Prelude/Texts/Parts.antt =====
-- The parts of a split text, on a text's first character.
use Prim.Native.Nat.{ℕ}
use Prim.Native.Char.{Char, code}
use Prim.Native.String.{String}
use mathlib.Core.Path.{◌≡◌, refl}
use mathlib.Core.Logic.{inl, inr}
use mathlib.Core.List.{List, [], ◌∷◌, ◌++◌}
use text.Mathlib.TextLemmas.{cons-append}
use anytoolai_platform.Prelude.Tests.{eqb, Bool-cases, if◌then◌else◌}
use anytoolai_platform.Prelude.Texts.{push, split_from}

-- The first of the parts that stand already stays the first.
split_from-first :
    (sep : ℕ) (p : String) (ps : List String) (cur s : String)
    → (qs : List String) × (split_from sep (p ∷ ps) cur s ≡ p ∷ qs)
unfolding split_from push
split_from-first sep p ps cur String.[] = (ps ++ cur ∷ [], refl)
split_from-first sep p ps cur (String.◌∷◌ c s) = elim (Bool-cases (eqb (code c) sep)) [
  | inl e ↦ rw (e, if◌then◌else◌) (split_from-first sep p (ps ++ cur ∷ []) "" s)
  | inr e ↦ rw (e, if◌then◌else◌) (split_from-first sep p ps (push cur c) s)
]

-- The first part begins with the character that it began with.
pub split_from-head :
    (sep : ℕ) (x : Char) (cur s : String)
    → (u : String) × (qs : List String) × (split_from sep [] (String.◌∷◌ x cur) s
        ≡ String.◌∷◌ x u ∷ qs)
unfolding split_from push
split_from-head sep x cur String.[] = (cur, [], refl)
split_from-head sep x cur (String.◌∷◌ c s) = elim (Bool-cases (eqb (code c) sep)) [
  | inl e ↦
      let (qs, h) = split_from-first sep (String.◌∷◌ x cur) [] "" s in
      (cur, qs, rw (e, if◌then◌else◌) h)
  | inr e ↦
      rw (e, if◌then◌else◌, push, cons-append x cur (String.◌∷◌ c String.[]))
        (split_from-head sep x (push cur c) s)
]
