-- ===== src/Quotas/Ledger.antt =====
-- The accounts of a table of buckets against two tallies of reservations: how many hold capacity in
-- each bucket, and how many have spent it. Both kinds of bucket of quotas/models.py are ledgers.
use anytoolai_platform.Prelude.{
  ℕ, ◌+◌, String, ◌==◌, ◌≡◌, refl, Bool, true, false, Option, none, some, List, arith,
  if◌then◌else◌, eq_iff, inl, inr, Bool-cases,
}
use mathlib.Core.Path.{subst}
use mathlib.Core.Option
use anytoolai_platform.Prelude.Table.{
  select, update_where, insert, update_where_cases, insert_cases, select-modify, select-append,
}

-- The tallies move at `k` as the counters of its row do, and nowhere else.
pub record TalliesShift (k : String) (up down spent : ℕ) (n m n' m' : String → ℕ) : Type 0 where
  pub held_at : n' k + down ≡ n k + up
  pub spent_at : m' k ≡ m k + spent
  pub held_elsewhere : (j : String) → (k == j) ≡ false → n' j ≡ n j
  pub spent_elsewhere : (j : String) → (k == j) ≡ false → m' j ≡ m j

module _ {Row : Type 0} (held used base : Row → ℕ) where
  -- One bucket agrees with its tallies; a bucket that is not there has none.
  abbrev pub Cell : Option Row → ℕ → ℕ → Type 0
  Cell none n m = (n ≡ 0) × (m ≡ 0)
  Cell (some b) n m = (held b ≡ n) × (used b ≡ base b + m)

  -- How a write to a row moves its counters: `up` reservations more, `down` fewer, `spent` uses
  -- more.
  pub record Shifts (up down spent : ℕ) (b b' : Row) : Type 0 where
    pub held_shift : held b' + down ≡ held b + up
    pub used_shift : used b' ≡ used b + spent
    pub base_same : base b' ≡ base b

  Cell-moved :
      (up down spent n m n' m' : ℕ) (b b' : Row)
      → Shifts up down spent b b'
      → n' + down ≡ n + up
      → m' ≡ m + spent
      → Cell (some b) n m
      → Cell (some b') n' m'
  Cell-moved up down spent n m n' m' b b' h p q c = (omega arith, omega arith)

  Cell-same : (n m n' m' : ℕ) (o : Option Row) → n' ≡ n → m' ≡ m → Cell o n m → Cell o n' m'
  Cell-same n m n' m' o p q c = rw (p, q) c

module _ {Row : Type 0} (key : Row → String) (held used base : Row → ℕ) where
  -- Every bucket agrees with its tallies.
  abbrev pub Balanced : List Row → (String → ℕ) → (String → ℕ) → Type 0
  Balanced rows n m = (k : String) → Cell held used base (select key k rows) (n k) (m k)

  pub Balanced-update_where :
      (k : String) (cond : Row → Bool) (f : Row → Row) (up down spent : ℕ) (rows rows' : List Row)
      (n m n' m' : String → ℕ)
      → ((b : Row) → key (f b) ≡ key b)
      → ((b : Row) → cond b ≡ true → Shifts held used base up down spent b (f b))
      → update_where key k cond f rows ≡ some rows'
      → TalliesShift k up down spent n m n' m'
      → Balanced rows n m
      → Balanced rows' n' m'
  Balanced-update_where k cond f up down spent rows rows' n m n' m' keeps shifts wrote tallies bal
        j =
      let (b, there, passed, now) = update_where_cases key k cond f rows rows' wrote in
      rw (now, select-modify key f keeps k j rows) (go b there passed (k == j) refl)
    where
      go :
          (b : Row)
          → select key k rows ≡ some b
          → cond b ≡ true
          → (t : Bool) → (k == j) ≡ t
          → Cell held used base
              (if t then Option.map f (select key k rows) else select key j rows)
              (n' j)
              (m' j)
      go b there passed true e =
          let same : k ≡ j = (eq_iff k j).0 e in
          rw (← same, there)
            (Cell-moved held used base up down spent (n k) (m k) (n' k) (m' k) b (f b)
              (shifts b passed) tallies.held_at tallies.spent_at
              (subst (λ o. Cell held used base o (n k) (m k)) there (bal k)))
      go b there passed false e =
          Cell-same held used base (n j) (m j) (n' j) (m' j) (select key j rows)
            (tallies.held_elsewhere j e) (tallies.spent_elsewhere j e) (bal j)

  pub Balanced-same :
      (rows : List Row) (n m n' m' : String → ℕ)
      → ((j : String) → (n' j ≡ n j) × (m' j ≡ m j))
      → Balanced rows n m
      → Balanced rows n' m'
  Balanced-same rows n m n' m' same bal j =
      Cell-same held used base (n j) (m j) (n' j) (m' j) (select key j rows) (same j).0 (same j).1
        (bal j)

  -- A bucket that starts with nothing held, and with no use but what it is given.
  pub Balanced-insert :
      (b : Row) (rows rows' : List Row) (n m : String → ℕ)
      → held b ≡ 0
      → used b ≡ base b
      → insert key b rows ≡ some rows'
      → Balanced rows n m
      → Balanced rows' n m
  Balanced-insert b rows rows' n m h u wrote bal j =
      rw ((insert_cases key b rows rows' wrote).1, select-append key b j rows)
        (go (select key j rows) refl (bal j))
    where
      go :
          (o : Option Row)
          → select key j rows ≡ o
          → Cell held used base o (n j) (m j)
          → Cell held used base
              (elim o [ none ↦ (if key b == j then some b else none) | some x ↦ some x ])
              (n j)
              (m j)
      go (some x) e c = c
      go none e c = elim (Bool-cases (key b == j)) [
        | inl same ↦ rw same (omega arith, omega arith)
        | inr other ↦ rw other c
      ]
