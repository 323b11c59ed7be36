-- ===== src/Core/Effects.antt =====
-- Methods that change an object and may raise: what was written before a raise stays written, so the
-- state comes back beside the exception too.
pub mod Rules
use proteo_runtime.Prelude.Result.{ok, raise}
use proteo_runtime.Core.Errors.{Py, Exc}

abbrev pub Method : Type 0 → Type 0 → Type 0
Method S A = S → Py A × S

module _ {S A : Type 0} where
  unfoldable pub pure : A → Method S A
  pure a s = (ok a, s)

  unfoldable pub throw : Exc → Method S A
  throw e s = (raise e, s)

  -- A pure function that may raise.
  unfoldable pub lift : Py A → Method S A
  lift r s = (r, s)

module _ {S A B : Type 0} where
  abbrev pub continue : Py A → (A → Method S B) → Method S B
  continue (ok a) f s = f a s
  continue (raise e) f s = (raise e, s)

  infixl 5 ◌>>=◌ ◌>>◌
  -- opening this opens `pure`, `throw` and `lift` too
  unfoldable pub ◌>>=◌ : Method S A → (A → Method S B) → Method S B
  unfolding pure throw lift
  ◌>>=◌ m f s = let (r, s') = m s in continue r f s'

  abbrev pub ◌>>◌ : Method S A → Method S B → Method S B
  m >> n = m >>= λ _. n

-- A relation that steps may keep, from the state before a method to the state after it.
pub record Related {S : Type 0} (R : S → S → Type 0) : Type 0 where
  pub same : (s : S) → R s s
  pub then_to : (s t u : S) → R s t → R t u → R s u

-- The method keeps the relation, whether it returns or raises.
pub record Keeps {S A : Type 0} (R : S → S → Type 0) (m : Method S A) : Type 0 where
  pub at : (s : S) → R s (m s).1
