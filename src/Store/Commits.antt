-- ===== src/Store/Commits.antt =====
-- What holds of the store after a transaction that starts from a given store and commits.
use mathlib.Core.Path.{subst}
use anytoolai_platform.Prelude.{◌≡◌, refl, sym, Bool, true, false, Option, none, some}
use anytoolai_platform.Store.{
  Store, Error, Result, ok, err, Tx, ◌>>=◌, ◌>>◌, >>=-eq-ok, refuse_if, require_some, after,
}
use anytoolai_platform.Store.Ensures.{Ensures, Reads}

-- Whenever `m` returns from `s`, the store that it leaves satisfies `P`.
pub record Commits {A : Type 0} (s : Store) (P : Store → Type 0) (m : Tx A) : Type 0 where
  pub at : (a : A) (s' : Store) → m s ≡ ok (a, s') → P s'

module _ {A B : Type 0} (s : Store) (P : Store → Type 0) where
  -- A first step that reads; what follows may use what it returned.
  pub Commits-Reads :
      (m : Tx A) (f : A → Tx B)
      → Reads m
      → ((a : A) → m s ≡ ok (a, s) → Commits s P (f a))
      → Commits s P (m >>= f)
  Commits-Reads m f hm hf = record {
    at = λ b s' e.
        let (a, t, e₁, e₂) = >>=-eq-ok m f s e in
        let same = hm.at s a t e₁ in
        (hf a (subst (λ x. m s ≡ ok (a, x)) same e₁)).at b s'
          (subst (λ x. f a x ≡ ok (b, s')) same e₂);
  }

  -- A first step that writes; the rest starts from the store that it leaves.
  pub Commits-step :
      (m : Tx A) (f : A → Tx B)
      → ((a : A) (t : Store) → m s ≡ ok (a, t) → Commits t P (f a))
      → Commits s P (m >>= f)
  Commits-step m f hf = record {
    at = λ b s' e. let (a, t, e₁, e₂) = >>=-eq-ok m f s e in (hf a t e₁).at b s' e₂;
  }

  pub Commits-require_some :
      (o : Option A) (x : Error) (f : A → Tx B)
      → ((a : A) → o ≡ some a → Commits s P (f a))
      → Commits s P (require_some o x >>= f)
  Commits-require_some none x f h = record { at = λ a s' e. cc }
  Commits-require_some (some v) x f h = record { at = (h v refl).at }

module _ {B : Type 0} (s : Store) (P : Store → Type 0) where
  pub Commits-refuse_if :
      (b : Bool) (x : Error) (k : Tx B)
      → (b ≡ false → Commits s P k)
      → Commits s P (refuse_if b x >> k)
  Commits-refuse_if true x k h = record { at = λ a s' e. cc }
  Commits-refuse_if false x k h = record { at = (h refl).at }

  -- A last step that reads.
  pub Commits-last : (m : Tx B) → P s → Reads m → Commits s P m
  Commits-last m p h = record { at = λ a s' e. subst P (sym (h.at s a s' e)) p }

pub Ensures-Commits :
    {A : Type 0} (P : Store → Store → Type 0) (m : Tx A)
    → ((s : Store) → Commits s (P s) m)
    → Ensures P m
Ensures-Commits P m h = record { at = λ s a s' e. (h s).at a s' e }

-- A transaction that raises is rolled back.
pub after-Commits :
    {A : Type 0} (P : Store → Type 0) (m : Tx A) (s : Store)
    → P s
    → Commits s P m
    → P (after (m s) s)
after-Commits {A} P m s same h = go (m s) refl
  where
    go : (r : Result (A × Store)) → m s ≡ r → P (after r s)
    go (ok (a, s')) e = h.at a s' e
    go (err x) e = same
