-- ===== src/Prelude/Rows.antt =====
-- What holds of every row of a table with a primary key, and how statements keep it.
use Prim.Native.String.{String}
use mathlib.Core.Path.{◌≡◌}
use mathlib.Core.Bool.{Bool, true, false}
use mathlib.Core.Option.{Option, none, some}
use mathlib.Core.Option
use mathlib.Core.List.{List, [], ◌∷◌, ◌++◌}
use text.Mathlib.Text.{◌==◌}
use mathlib.Core.Path.{subst}
use anytoolai_platform.Prelude.Tests.{if◌then◌else◌}
use anytoolai_platform.Prelude.Table.{
  select, update_where, insert, update_where_cases, insert_cases, select-modify, select-append,
}

-- Of the row, if there is one.
abbrev pub Holds : {Row : Type 0} → (Row → Type 0) → Option Row → Type 0
Holds P none = Unit
Holds P (some r) = P r

module _ {Row : Type 0} (key : Row → String) (P : Row → Type 0) where
  abbrev pub Each : List Row → Type 0
  Each rows = (k : String) → Holds P (select key k rows)

  new_or_old :
      (r : Row) (b : Bool) (o : Option Row)
      → P r
      → Holds P o
      → Holds P (elim o [ none ↦ (if b then some r else none) | some x ↦ some x ])
  new_or_old r b (some x) p h = h
  new_or_old r true none p h = p
  new_or_old r false none p h = tt

  pub Each-append : (r : Row) (rows : List Row) → P r → Each rows → Each (rows ++ r ∷ [])
  Each-append r rows p h k =
      rw (select-append key r k rows) (new_or_old r (key r == k) (select key k rows) p (h k))

  pub Each-insert :
      (r : Row) (rows rows' : List Row)
      → P r
      → insert key r rows ≡ some rows'
      → Each rows
      → Each rows'
  Each-insert r rows rows' p wrote h k =
      rw ((insert_cases key r rows rows' wrote).1) (Each-append r rows p h k)

  changed_or_old :
      (f : Row → Row) (b : Bool) (r : Row) (o : Option Row)
      → P (f r)
      → Holds P o
      → Holds P (if b then Option.map f (some r) else o)
  changed_or_old f true r o p h = p
  changed_or_old f false r o p h = h

  pub Each-update_where :
      (k : String) (cond : Row → Bool) (f : Row → Row)
      → ((r : Row) → key (f r) ≡ key r)
      → ((r : Row) → cond r ≡ true → P r → P (f r))
      → (rows rows' : List Row) → update_where key k cond f rows ≡ some rows'
      → Each rows
      → Each rows'
  Each-update_where k cond f keeps step rows rows' wrote h j =
      let (r, there, passed, now) = update_where_cases key k cond f rows rows' wrote in
      rw (now, select-modify key f keeps k j rows, there)
        (changed_or_old f (k == j) r (select key j rows)
          (step r passed (subst (Holds P) there (h k))) (h j))
