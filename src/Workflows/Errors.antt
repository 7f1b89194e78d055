-- ===== src/Workflows/Errors.antt =====
-- workflows/errors.py: the exceptions that the mappings raise, each with the fixed part of its
-- message, and a value that is returned or an exception.
use anytoolai_platform.Prelude.{String, Bool, true, false, ◌≡◌, refl}

-- `source_path_absent` is a subclass of `mapping_resolution`.
pub data MappingError : Type 0 where
  mapping_resolution source_path_absent condition_evaluation : String → MappingError
  step_contract_invalid index_error : String → MappingError

pub data Outcome {ℓ} (A : Type ℓ) : Type ℓ where
  done : A → Outcome A
  failed : MappingError → Outcome A

infixl 5 ◌>>=◌ ◌>>◌
abbrev pub ◌>>=◌ : {A B : Type 0} → Outcome A → (A → Outcome B) → Outcome B
done a >>= f = f a
failed e >>= f = failed e

abbrev pub ◌>>◌ : {B : Type 0} → Outcome (Unit {0}) → Outcome B → Outcome B
m >> k = m >>= λ _. k

-- `if test: raise e`
abbrev pub fail_if : Bool → MappingError → Outcome (Unit {0})
fail_if true e = failed e
fail_if false e = done tt

-- What a composition that returns has done.
pub >>=-eq-done :
    {A B : Type 0} (m : Outcome A) (f : A → Outcome B) {b : B}
    → (m >>= f) ≡ done b
    → (a : A) × (m ≡ done a) × (f a ≡ done b)
>>=-eq-done (done a) f h = (a, refl, h)
>>=-eq-done (failed e) f h = cc

pub fail_if-eq-done :
    (b : Bool) (e : MappingError) {u : Unit {0}} → fail_if b e ≡ done u → b ≡ false
fail_if-eq-done true e h = cc
fail_if-eq-done false e h = refl
