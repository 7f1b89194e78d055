-- ===== src/Events/Emitter/Checks.antt =====
-- events/emitter.py: the checks of `emit`, each of which passes or raises.
use anytoolai_platform.Prelude.{
  String, ◌==◌, Bool, true, false, Option, none, some, List, [], ◌∷◌, ◌≡◌, refl, sym, ◌∙◌, ◌⊎◌, inl,
  inr, Bool-cases, ltb, if◌then◌else◌,
}
use mathlib.Core.Path.{subst}
use anytoolai_platform.Prelude.Texts.{strip, is_blank, length}
use anytoolai_platform.Store.{Store, value_error, Result, ok, err, Tx, ◌>>=◌, >>=-eq-ok, refuse_if}
use anytoolai_platform.Events.Emitter.{
  max_client_event_id_length, validate_event_type, validate_client_event_id, client_event_id,
}

-- It returns, or refuses its arguments.
abbrev pub OkOrRefused : {A : Type 0} → Tx A → Store → A → Type 0
OkOrRefused m s a = (m s ≡ ok (a, s)) ⊎ ((x : String) × (m s ≡ err (value_error x)))

-- A first step that is such, then the rest.
pub OkOrRefused-bind :
    {A B : Type 0} (m : Tx A) (f : A → Tx B) (s : Store) (a : A) (b : B)
    → OkOrRefused m s a
    → OkOrRefused (f a) s b
    → OkOrRefused (m >>= f) s b
OkOrRefused-bind m f s a b (inl e) (inl g) = inl (rw (e, ◌>>=◌) g)
OkOrRefused-bind m f s a b (inl e) (inr (x, g)) = inr (x, rw (e, ◌>>=◌) g)
OkOrRefused-bind m f s a b (inr (x, e)) h = inr (x, rw (e, ◌>>=◌) refl)

pub OkOrRefused-refuse_if :
    (b : Bool) (x : String) (s : Store) → OkOrRefused (refuse_if b (value_error x)) s tt
OkOrRefused-refuse_if true x s = inr (x, refl)
OkOrRefused-refuse_if false x s = inl refl

pub OkOrRefused-validate_event_type :
    (known : List String) (t : String) (s : Store) → OkOrRefused (validate_event_type known t) s tt
unfolding validate_event_type
OkOrRefused-validate_event_type [] t s = inr ("unknown platform event type", refl)
OkOrRefused-validate_event_type (k ∷ ks) t s = elim (Bool-cases (k == t)) [
  | inl e ↦ rw (e, if◌then◌else◌) (inl refl)
  | inr e ↦ rw (e, if◌then◌else◌) (OkOrRefused-validate_event_type ks t s)
]

-- The client's identifier, as it is looked up.
unfoldable pub stripped : Option String → Option String
unfolding strip
stripped none = none
stripped (some k) = some (strip k)

pub OkOrRefused-client_event_id :
    (replay : Bool) (o : Option String) (s : Store)
    → OkOrRefused (client_event_id replay o) s (stripped o)
unfolding client_event_id validate_client_event_id stripped
OkOrRefused-client_event_id replay none s = inl refl
OkOrRefused-client_event_id replay (some k) s =
    OkOrRefused-bind (refuse_if replay _) _ s tt (some (strip k))
      (OkOrRefused-refuse_if replay "event_id and replay are mutually exclusive" s)
      (OkOrRefused-bind (validate_client_event_id (strip k)) _ s tt (some (strip k))
        (OkOrRefused-bind (refuse_if (is_blank (strip k)) _) _ s tt tt
          (OkOrRefused-refuse_if (is_blank (strip k)) "event_id must not be empty" s)
          (OkOrRefused-refuse_if (ltb max_client_event_id_length (length (strip k)))
            "event_id must be at most 128 characters" s))
        (inl refl))

returned_inj :
    {A : Type 0} (b a : A) (t s : Store)
    → ◌≡◌ {A = Result (A × Store)} (ok (b, t)) (ok (a, s))
    → (b ≡ a) × (t ≡ s)
returned_inj b a t s h = (cc, cc)

-- Such a step that returns has returned that, and written nothing.
OkOrRefused-inv :
    {A : Type 0} (m : Tx A) (s t : Store) (a b : A)
    → OkOrRefused m s a
    → m s ≡ ok (b, t)
    → (b ≡ a) × (t ≡ s)
OkOrRefused-inv m s t a b (inl e) h = returned_inj b a t s (sym h ∙ e)
OkOrRefused-inv m s t a b (inr (x, e)) h = absurd (cc)

-- Such a step before the rest.
pub after_check :
    {A B : Type 0} (m : Tx A) (f : A → Tx B) (s : Store) (a : A) (r : B × Store)
    → OkOrRefused m s a
    → (m >>= f) s ≡ ok r
    → f a s ≡ ok r
after_check m f s a r c h =
    let (b, t, e, g) = >>=-eq-ok m f s h in
    let (same, kept) = OkOrRefused-inv m s t a b c e in
    subst (λ y. f y s ≡ ok r) same (subst (λ u. f b u ≡ ok r) kept g)
