-- ===== src/Store/Ensures.antt =====
-- What holds of the stores before and after a transaction that commits.
use anytoolai_platform.Prelude.{
  ◌≡◌, refl, sym, Bool, true, false, Option, none, some, if◌then◌else◌,
}
use anytoolai_platform.Store.{
  Store, Error, Result, ok, err, Tx, ◌>>=◌, ◌>>◌, >>=-eq-ok, after, refuse_if, require_some,
}
use mathlib.Core.Path.{subst}

-- `P s s'` whenever `m` takes `s` to `s'` and returns.
pub record Ensures {A : Type 0} (P : Store → Store → Type 0) (m : Tx A) : Type 0 where
  pub at : (s : Store) (a : A) (s' : Store) → m s ≡ ok (a, s') → P s s'

-- It writes nothing.
abbrev pub Reads : {A : Type 0} → Tx A → Type 0
Reads m = Ensures (λ s s'. s' ≡ s) m

module _ {A B : Type 0} (P : Store → Store → Type 0) where
  pub Ensures-then_read :
      (m : Tx A) (f : A → Tx B) → Ensures P m → ((a : A) → Reads (f a)) → Ensures P (m >>= f)
  Ensures-then_read m f hm hf = record {
    at = λ s b s' e.
        let (a, t, e₁, e₂) = >>=-eq-ok m f s e in
        subst (P s) (sym ((hf a).at t b s' e₂)) (hm.at s a t e₁);
  }

  pub Ensures-read_then :
      (m : Tx A) (f : A → Tx B) → Reads m → ((a : A) → Ensures P (f a)) → Ensures P (m >>= f)
  Ensures-read_then m f hm hf = record {
    at = λ s b s' e.
        let (a, t, e₁, e₂) = >>=-eq-ok m f s e in
        subst (λ x. P x s') (hm.at s a t e₁) ((hf a).at t b s' e₂);
  }

  -- As above, where the rest may use that `m` returned.
  pub Ensures-checked :
      (m : Tx A) (f : A → Tx B)
      → Reads m
      → ((a : A) (s s' : Store) → m s ≡ ok (a, s') → Ensures P (f a))
      → Ensures P (m >>= f)
  Ensures-checked m f hm hf = record {
    at = λ s b s' e.
        let (a, t, e₁, e₂) = >>=-eq-ok m f s e in
        subst (λ x. P x s') (hm.at s a t e₁) ((hf a s t e₁).at t b s' e₂);
  }

pub Reads-pure : {A : Type 0} (g : Store → A) → Reads (λ s. ok (g s, s))
Reads-pure g = record { at = λ s a s' e. cc }

pub Reads-raise : {A : Type 0} (x : Error) → Reads {A = A} (λ s. err x)
Reads-raise x = record { at = λ s a s' e. cc }

pub Reads-refuse_if : (b : Bool) (x : Error) → Reads (refuse_if b x)
Reads-refuse_if true x = record { at = λ s a s' e. cc }
Reads-refuse_if false x = record { at = λ s a s' e. cc }

pub Reads-require_some : {A : Type 0} (o : Option A) (x : Error) → Reads (require_some o x)
Reads-require_some none x = record { at = λ s a s' e. cc }
Reads-require_some (some v) x = record { at = λ s a s' e. cc }

pub Reads-if : {A : Type 0} (b : Bool) (m n : Tx A) → Reads m → Reads n → Reads (if b then m else n)
Reads-if true m n hm hn = hm
Reads-if false m n hm hn = hn

-- What follows a guard knows that the guard let it pass.
module _ {B : Type 0} (P : Store → Store → Type 0) where
  pub Ensures-refuse_if :
      (b : Bool) (x : Error) (k : Tx B) → (b ≡ false → Ensures P k) → Ensures P (refuse_if b x >> k)
  Ensures-refuse_if true x k h = record { at = λ s a s' e. cc }
  Ensures-refuse_if false x k h = record { at = (h refl).at }

module _ {A B : Type 0} (P : Store → Store → Type 0) where
  pub Ensures-require_some :
      (o : Option A) (x : Error) (f : A → Tx B)
      → ((a : A) → o ≡ some a → Ensures P (f a))
      → Ensures P (require_some o x >>= f)
  Ensures-require_some none x f h = record { at = λ s a s' e. cc }
  Ensures-require_some (some v) x f h = record { at = (h v refl).at }

-- A transaction that raises is rolled back.
pub after-Ensures :
    {A : Type 0} (P : Store → Store → Type 0) (m : Tx A) (s : Store)
    → P s s
    → Ensures P m
    → P s (after (m s) s)
after-Ensures {A} P m s same h = go (m s) refl
  where
    go : (r : Result (A × Store)) → m s ≡ r → P s (after r s)
    go (ok (a, s')) e = h.at s a s' e
    go (err x) e = same
