-- ===== src/Prelude/Texts/Decimal.antt =====
-- Python's `str` of an integer that is not negative, and the format `03d`.
use Prim.Native.Nat.{ℕ, zero, suc, ◌/◌, ◌%◌, ◌<◌}
use Prim.Native.String.{String, ◌++◌, slice, count}
use mathlib.Core.Path.{◌≡◌, refl}
use mathlib.Core.Logic.{inl, inr}
use native.Mathlib.Omega.{arith}
use anytoolai_platform.Prelude.Tests.{ltb, Bool-cases, if◌then◌else◌}

unfoldable pub digit : ℕ → String
digit d = slice "0123456789" d (suc d)

unfoldable pub decimal_with : ℕ → ℕ → String
unfolding digit
decimal_with zero n = ""
decimal_with (suc fuel) n =
    let rest = decimal_with fuel (n / 10) in if ltb n 10 then digit n else rest ++ digit (n % 10)

-- A number has fewer digits than the fuel.
unfoldable pub decimal : ℕ → String
unfolding decimal_with
decimal n = decimal_with (suc n) n

-- `f"{n:03d}"`
unfoldable pub decimal3 : ℕ → String
unfolding decimal
decimal3 n =
    let shown = decimal n in
    if ltb (count shown) 2
    then "00" ++ shown
    else if ltb (count shown) 3
    then "0" ++ shown
    else shown

-- Enough fuel is given: more of it changes nothing.
decimal_with-stable : (f g n : ℕ) → n < f → n < g → decimal_with f n ≡ decimal_with g n
unfolding decimal_with
decimal_with-stable zero g n h k = absurd (omega arith)
decimal_with-stable (suc f) zero n h k = absurd (omega arith)
decimal_with-stable (suc f) (suc g) n h k = elim (Bool-cases (ltb n 10)) [
  | inl e ↦ rw (e, if◌then◌else◌) refl
  | inr e ↦ rw (decimal_with-stable f g (n / 10) (ground arith) (ground arith)) refl
]
