-- ===== src/Handoffs/Repository/Tokens.antt =====
-- handoffs/repository.py: the read of a handoff by the hash of its token.
use anytoolai_platform.Prelude.{
  String, ◌==◌, Bool, true, false, not, ◌&&◌, ◌||◌, Option, some, List, [], ◌∷◌, ◌++◌, ◌≡◌, refl,
  ap, ◌∙◌, arith, eq_refl, Option-cases, inl, inr,
}
use anytoolai_platform.Prelude.Table.{select, find, exists, insert, insert_cases}
use anytoolai_platform.Store.{
  Store, ok, Tx, ◌>>=◌, ◌>>◌, >>=-eq-ok, refuse_if, require_some, value_error, runtime_error,
}
use anytoolai_platform.Store.Ensures.{Reads, Ensures-read_then, Reads-pure, Reads-require_some}
use anytoolai_platform.Handoffs.Models.{HandoffRecord, handoff_key, handoff_status_eq, created}
use anytoolai_platform.Handoffs.Repository.{
  Scope, scoped, in_scope, get_by_id, insert_row, token_taken, create,
}

unfoldable pub has_token : Scope → String → HandoffRecord → Bool
has_token c token h = h.token_hash == token && in_scope c h

unfoldable pub get_by_token_hash : Scope → String → Tx (Option HandoffRecord)
unfolding has_token
get_by_token_hash c token s = ok (find (has_token c token) s.handoffs, s)

-- The scope of the row itself.
abbrev pub scope_of : HandoffRecord → Scope
scope_of h = record { tenant_id = h.tenant_id; region = h.region }

has_token-scope_of : (h : HandoffRecord) → has_token (scope_of h) h.token_hash h ≡ true
unfolding has_token in_scope
has_token-scope_of h = rw (eq_refl h.token_hash, eq_refl h.tenant_id, eq_refl h.region) refl

other_token :
    (c : Scope) (h x : HandoffRecord)
    → (x.token_hash == h.token_hash) ≡ false
    → has_token c h.token_hash x ≡ false
unfolding has_token
other_token c h x e = rw (e, has_token) refl

find-append_new :
    (c : Scope) (h : HandoffRecord) (rows : List HandoffRecord)
    → exists (λ x. x.token_hash == h.token_hash) rows ≡ false
    → has_token c h.token_hash h ≡ true
    → find (has_token c h.token_hash) (rows ++ h ∷ []) ≡ some h
unfolding find exists
find-append_new c h [] free has = rw has refl
find-append_new c h (x ∷ rows) free has =
    rw
      (other_token c h x (
        not_first (x.token_hash == h.token_hash) (exists (λ y. y.token_hash == h.token_hash) rows)
          free))
      (find-append_new c h rows
        (not_later (x.token_hash == h.token_hash) (exists (λ y. y.token_hash == h.token_hash) rows)
          free)
        has)
  where
    not_first : (a b : Bool) → (a || b) ≡ false → a ≡ false
    not_first a b e = ground arith

    not_later : (a b : Bool) → (a || b) ≡ false → b ≡ false
    not_later a b e = ground arith

inserted_row :
    (h : HandoffRecord) (s t : Store) (a : Unit {0})
    → insert_row h s ≡ ok (a, t)
    → (exists (λ x. x.token_hash == h.token_hash) s.handoffs ≡ false)
      × (t.handoffs ≡ s.handoffs ++ h ∷ [])
unfolding insert_row token_taken
inserted_row h s t a e = elim (Option-cases (insert handoff_key h s.handoffs)) [
  | inl n ↦ absurd (ground arith)
  | inr (rows, y) ↦
      let same : t.handoffs ≡ rows = ground arith in
      (ground arith, same ∙ (insert_cases handoff_key h s.handoffs rows y).1)
]

read_back : HandoffRecord → Tx HandoffRecord
read_back h = get_by_id (scope_of h) h.id >>= λ stored.
    require_some stored (runtime_error "handoff round-trip failed after create")

Reads-read_back : (h : HandoffRecord) → Reads (read_back h)
unfolding read_back get_by_id
Reads-read_back h =
    Ensures-read_then _ (get_by_id (scope_of h) h.id) _
      (Reads-pure (λ s. scoped (scope_of h) (select handoff_key h.id s.handoffs)))
      λ stored. Reads-require_some stored (runtime_error "handoff round-trip failed after create")

-- After the creation of a handoff that commits, the read by the hash of its token, in its tenant and
-- region, finds it.
pub created_found_by_token :
    (h x : HandoffRecord) (s t : Store)
    → create h s ≡ ok (x, t)
    → get_by_token_hash (scope_of h) h.token_hash t ≡ ok (some h, t)
unfolding create get_by_token_hash read_back
created_found_by_token h x s t e =
    let (a, s₁, e₁, rest₁) =
      >>=-eq-ok
        (refuse_if (not (handoff_status_eq h.status created))
          (value_error "handoff creation requires status=created"))
        (λ _. insert_row h >> read_back h) s e in
    let (b, s₂, e₂, rest₂) = >>=-eq-ok (insert_row h) (λ _. read_back h) s₁ rest₁ in
    let (free, wrote) = inserted_row h s₁ s₂ b e₂ in
    let appended : t.handoffs ≡ s₁.handoffs ++ h ∷ [] =
      ap (λ z. z.handoffs) ((Reads-read_back h).at s₂ x t rest₂) ∙ wrote in
    ap (λ o. ok (o, t))
      (rw appended (find-append_new (scope_of h) h s₁.handoffs free (has_token-scope_of h)))
