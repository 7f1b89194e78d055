-- ===== src/Prelude/Texts.antt =====
-- Python's operations on `str`, over code points.
pub mod Parts
pub mod Decimal
use Prim.Native.Nat.{ℕ, zero, suc, ◌-◌}
use Prim.Native.Char.{Char, code}
use Prim.Native.String
use Prim.Native.String.{String, [], ◌∷◌, len, slice, count}
use mathlib.Core.Bool.{Bool, true, false, ◌&&◌, ◌||◌}
use mathlib.Core.List.{List, [], ◌∷◌, ◌++◌}
use text.Mathlib.Text.{◌==◌, find?}
pub use text.Mathlib.Text.{starts_with}
use anytoolai_platform.Prelude.Tests.{leb, eqb, is_some, if◌then◌else◌}

-- `t in s`
unfoldable pub contains_text : String → String → Bool
contains_text s t = is_some (find? s t)

-- `s.endswith(t)`
unfoldable pub ends_with : String → String → Bool
ends_with s t = leb (len t) (len s) && slice s (len s - len t) (len s) == t

-- `s[len(p):]`, of a text that starts with p
unfoldable pub drop_prefix : String → String → String
drop_prefix p s = slice s (len p) (len s)

-- `len(s)`
abbrev pub length : String → ℕ
length s = count s

-- `s[:n]`
unfoldable pub take : ℕ → String → String
take zero s = []
take (suc n) [] = []
take (suc n) (c ∷ s) = c ∷ take n s

-- `str.isspace` of one character
unfoldable pub is_space : ℕ → Bool
is_space c =
    leb 9 c && leb c 13
    || leb 28 c && leb c 32
    || eqb c 133
    || eqb c 160
    || eqb c 5760
    || leb 8192 c && leb c 8202
    || eqb c 8232
    || eqb c 8233
    || eqb c 8239
    || eqb c 8287
    || eqb c 12288

-- `not s.strip()`
unfoldable pub is_blank : String → Bool
unfolding is_space
is_blank [] = true
is_blank (c ∷ s) = is_space (code c) && is_blank s

unfoldable pub push : String → Char → String
push s c = String.◌++◌ s (c ∷ [])

-- The parts that are closed, the one that is being read, and the rest of the text.
unfoldable pub split_from : ℕ → List String → String → String → List String
unfolding push
split_from separator parts cur [] = parts ++ cur ∷ []
split_from separator parts cur (c ∷ s) =
    let closed = split_from separator (parts ++ cur ∷ []) "" s in
    let longer = split_from separator parts (push cur c) s in
    if eqb (code c) separator then closed else longer

-- `s.split(c)`, for one character
unfoldable pub split : ℕ → String → List String
unfolding split_from
split separator s = split_from separator [] "" s

unfoldable pub strip_left : String → String
unfolding is_space
strip_left [] = []
strip_left (c ∷ s) = let rest = strip_left s in if is_space (code c) then rest else c ∷ s

unfoldable pub strip_right : String → String
unfolding is_space
strip_right [] = []
strip_right (c ∷ s) =
    let rest = strip_right s in if rest == "" && is_space (code c) then [] else c ∷ rest

-- `s.strip()`
unfoldable pub strip : String → String
unfolding strip_left strip_right
strip s = strip_right (strip_left s)

-- `separator.join(parts)`
unfoldable pub join : String → List String → String
join separator [] = ""
join separator (part ∷ []) = part
join separator (part ∷ next ∷ parts) =
    String.◌++◌ part (String.◌++◌ separator (join separator (next ∷ parts)))
