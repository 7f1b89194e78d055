-- ===== src/Prelude/Table.antt =====
-- A database table with a primary key, as the list of its rows. A statement by primary key touches
-- at most one row, so its row count is 0 (`none`) or 1 (`some`).
use Prim.Native.String.{String}
use mathlib.Core.Path.{◌≡◌, refl}
use mathlib.Core.Logic.{inl, inr}
use mathlib.Core.Bool.{Bool, true, false, ◌||◌}
use mathlib.Core.Option.{Option, none, some}
use mathlib.Core.Option
use mathlib.Core.List.{List, [], ◌∷◌, ◌++◌}
use native.Mathlib.Omega.{arith}
use text.Mathlib.Text.{◌==◌}
use text.Mathlib.TextEquality.{eq_iff}
use text.Mathlib.TextPositions.{eq_refl}
use Prim.Native.Nat.{ℕ, ◌+◌}
use anytoolai_platform.Prelude.Tests.{one_if, if◌then◌else◌, Option-cases}

module _ {Row : Type 0} where
  -- SELECT … WHERE test, where a unique constraint leaves one row at most
  unfoldable pub find : (Row → Bool) → List Row → Option Row
  find test [] = none
  find test (r ∷ rs) = if test r then some r else find test rs

  -- SELECT EXISTS (… WHERE test)
  unfoldable pub exists : (Row → Bool) → List Row → Bool
  exists test [] = false
  exists test (r ∷ rs) = test r || exists test rs

  -- SELECT COUNT(*) … WHERE test
  unfoldable pub count : (Row → Bool) → List Row → ℕ
  count test [] = 0
  count test (r ∷ rs) = one_if (test r) + count test rs

  pub count-append :
      (test : Row → Bool) (r : Row) (rows : List Row)
      → count test (rows ++ r ∷ []) ≡ count test rows + one_if (test r)
  unfolding count
  count-append test r [] = omega arith
  count-append test r (x ∷ rs) = omega (arith, count-append test r rs)

module _ {Row : Type 0} (key : Row → String) where
  -- SELECT … WHERE id = k
  unfoldable pub select : String → List Row → Option Row
  select k [] = none
  select k (r ∷ rs) = if key r == k then some r else select k rs

  unfoldable pub modify : String → (Row → Row) → List Row → List Row
  modify k f [] = []
  modify k f (r ∷ rs) = if key r == k then f r ∷ rs else r ∷ modify k f rs

  -- UPDATE … SET f WHERE id = k AND cond
  unfoldable pub update_where : String → (Row → Bool) → (Row → Row) → List Row → Option (List Row)
  update_where k cond f rows = elim (select k rows) [
    | none ↦ none
    | some r ↦ if cond r then some (modify k f rows) else none
  ]

  -- INSERT: `none` is the violation of the primary key.
  unfoldable pub insert : Row → List Row → Option (List Row)
  insert r rows = elim (select (key r) rows) [ none ↦ some (rows ++ r ∷ []) | some _ ↦ none ]

  pub select-modify :
      (f : Row → Row) (keeps : (r : Row) → key (f r) ≡ key r) (k j : String) (rows : List Row)
      → select j (modify k f rows)
        ≡ (if k == j then Option.map f (select k rows) else select j rows)
  unfolding select modify
  select-modify f keeps k j [] = ground arith
  select-modify f keeps k j (r ∷ rs) = ground (
    arith,
    keeps r,
    eq_iff (key r) k,
    eq_iff (key r) j,
    eq_iff (key (f r)) j,
    eq_iff k j,
    select-modify f keeps k j rs,
  )

  pub select-append :
      (r : Row) (j : String) (rows : List Row)
      → select j (rows ++ r ∷ [])
        ≡ elim (select j rows) [ none ↦ (if key r == j then some r else none) | some x ↦ some x ]
  unfolding select
  select-append r j [] = refl
  select-append r j (x ∷ rs) = ground (arith, select-append r j rs)

  pub select-modify_self :
      (f : Row → Row) (keeps : (r : Row) → key (f r) ≡ key r) (k : String) (rows : List Row)
      (r : Row)
      → select k rows ≡ some r
      → select k (modify k f rows) ≡ some (f r)
  select-modify_self f keeps k rows r e = rw (select-modify f keeps k k rows, eq_refl k, e)

  -- A row that is found has the key that was asked for.
  pub key-select : (k : String) (rows : List Row) (r : Row) → select k rows ≡ some r → key r ≡ k
  unfolding select
  key-select k [] r h = ground arith
  key-select k (x ∷ rs) r h = ground (arith, eq_iff (key x) k, key-select k rs r)

module _ {Row : Type 0} (key : Row → String) where
  pub insert_cases :
      (r : Row) (rows rows' : List Row)
      → insert key r rows ≡ some rows'
      → (select key (key r) rows ≡ none) × (rows' ≡ rows ++ r ∷ [])
  unfolding insert
  insert_cases r rows rows' h = ground arith

  pub update_where_cases :
      (k : String) (cond : Row → Bool) (f : Row → Row) (rows rows' : List Row)
      → update_where key k cond f rows ≡ some rows'
      → (r : Row) × (select key k rows ≡ some r) × (cond r ≡ true) × (rows' ≡ modify key k f rows)
  unfolding update_where
  update_where_cases k cond f rows rows' h = elim (Option-cases (select key k rows)) [
    | inl e ↦ absurd (ground arith)
    | inr (r, e) ↦ (r, e, ground arith, ground arith)
  ]

  -- A write to one row moves each count by what the row's own test says before and after.
  pub count-modify :
      (test : Row → Bool) (k : String) (f : Row → Row) (rows : List Row) (r : Row)
      → select key k rows ≡ some r
      → count test (modify key k f rows) + one_if (test r) ≡ count test rows + one_if (test (f r))
  unfolding select modify count
  count-modify test k f [] r h = ground arith
  count-modify test k f (x ∷ rs) r h = ground (arith, count-modify test k f rs r)

  pub update_where_at :
      (k : String) (cond : Row → Bool) (f : Row → Row) (rows : List Row) (r : Row) (b : Bool)
      → select key k rows ≡ some r
      → cond r ≡ b
      → update_where key k cond f rows ≡ (if b then some (modify key k f rows) else none)
  unfolding update_where
  update_where_at k cond f rows r true e c = ground arith
  update_where_at k cond f rows r false e c = ground arith

-- How a row that was there relates to the row under its key afterwards: no row is lost.
abbrev pub Related : {Row : Type 0} → (Row → Row → Type 0) → Option Row → Option Row → Type 0
Related R none b = Unit
Related R (some r) none = ⊥
Related R (some r) (some r') = R r r'

pub Related-refl :
    {Row : Type 0} (R : Row → Row → Type 0) → ((r : Row) → R r r) → (o : Option Row) → Related R o o
Related-refl R id_ none = tt
Related-refl R id_ (some r) = id_ r

module _ {Row : Type 0} (key : Row → String) (R : Row → Row → Type 0)
    (id_ : (r : Row) → R r r) where
  old_row :
      (r : Row) (j : String) (o : Option Row)
      → Related R o (elim o [ none ↦ (if key r == j then some r else none) | some x ↦ some x ])
  old_row r j none = tt
  old_row r j (some x) = id_ x

  pub insert-Related :
      (r : Row) (rows rows' : List Row)
      → insert key r rows ≡ some rows'
      → (j : String) → Related R (select key j rows) (select key j rows')
  insert-Related r rows rows' h j =
      rw (insert_cases key r rows rows' h).1
        (rw (select-append key r j rows) (old_row r j (select key j rows)))

  modified_row :
      (f : Row → Row) (b : Bool) (k j : String) (rows : List Row) (r : Row)
      → select key k rows ≡ some r
      → (b ≡ true → k ≡ j)
      → R r (f r)
      → Related R
          (select key j rows)
          (if b then Option.map f (select key k rows) else select key j rows)
  modified_row f true k j rows r e same step = rw (← same refl, e) step
  modified_row f false k j rows r e same step = Related-refl R id_ (select key j rows)

  pub update_where-Related :
      (k : String) (cond : Row → Bool) (f : Row → Row)
      → ((r : Row) → key (f r) ≡ key r)
      → ((r : Row) → cond r ≡ true → R r (f r))
      → (rows rows' : List Row) → update_where key k cond f rows ≡ some rows'
      → (j : String) → Related R (select key j rows) (select key j rows')
  update_where-Related k cond f keeps step rows rows' h j =
      let (r, found, passed, now) = update_where_cases key k cond f rows rows' h in
      rw (now, select-modify key f keeps k j rows)
        (modified_row f (k == j) k j rows r found ((eq_iff k j).0) (step r passed))

  -- As above, from the one row that the key finds.
  pub update_where-Related_at :
      (k : String) (cond : Row → Bool) (f : Row → Row)
      → ((r : Row) → key (f r) ≡ key r)
      → (rows rows' : List Row) (x : Row) → select key k rows ≡ some x
      → R x (f x)
      → update_where key k cond f rows ≡ some rows'
      → (j : String) → Related R (select key j rows) (select key j rows')
  update_where-Related_at k cond f keeps rows rows' x there step h j =
      rw ((update_where_cases key k cond f rows rows' h).3, select-modify key f keeps k j rows)
        (modified_row f (k == j) k j rows x there ((eq_iff k j).0) step)
