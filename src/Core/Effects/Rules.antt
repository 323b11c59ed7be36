-- ===== src/Core/Effects/Rules.antt =====
-- Rules for a relation that each step of a method keeps.
use proteo_runtime.Prelude.{◌≡◌, refl, Bool, true, false, if◌then◌else◌}
use proteo_runtime.Prelude.Result.{ok, raise}
use proteo_runtime.Core.Errors.{Py, Exc}
use proteo_runtime.Core.Effects.{Method, pure, throw, lift, continue, ◌>>=◌, Related, Keeps}

module _ {S : Type 0} {R : S → S → Type 0} where
  pub Keeps-pure : {A : Type 0} → Related R → (a : A) → Keeps R (pure a)
  unfolding pure
  Keeps-pure rel a = record { at = λ s. rel.same s }

  pub Keeps-throw : {A : Type 0} → Related R → (e : Exc) → Keeps R (throw {A = A} e)
  unfolding throw
  Keeps-throw rel e = record { at = λ s. rel.same s }

  pub Keeps-lift : {A : Type 0} → Related R → (r : Py A) → Keeps R (lift r)
  unfolding lift
  Keeps-lift rel r = record { at = λ s. rel.same s }

  continue-Keeps :
      {A B : Type 0} (r : Py A) (f : A → Method S B)
      → Related R
      → ((a : A) → r ≡ ok a → Keeps R (f a))
      → (t : S) → R t (continue r f t).1
  continue-Keeps (ok a) f rel k t = (k a refl).at t
  continue-Keeps (raise e) f rel k t = rel.same t

  -- The rest may use that the first part returned its value, from some state.
  pub Keeps-bind_of :
      {A B : Type 0} (m : Method S A) (f : A → Method S B)
      → Related R
      → Keeps R m
      → ((a : A) (s : S) → (m s).0 ≡ ok a → Keeps R (f a))
      → Keeps R (m >>= f)
  unfolding ◌>>=◌
  Keeps-bind_of m f rel km kf = record {
    at = λ s.
        rel.then_to s (m s).1 _ (km.at s) (continue-Keeps (m s).0 f rel (λ a e. kf a s e) (m s).1);
  }

  pub Keeps-bind :
      {A B : Type 0} (m : Method S A) (f : A → Method S B)
      → Related R
      → Keeps R m
      → ((a : A) → Keeps R (f a))
      → Keeps R (m >>= f)
  Keeps-bind m f rel km kf = Keeps-bind_of m f rel km (λ a s e. kf a)

  pub Keeps-if :
      {A : Type 0} (b : Bool) (m n : Method S A)
      → (b ≡ true → Keeps R m)
      → (b ≡ false → Keeps R n)
      → Keeps R (if b then m else n)
  Keeps-if true m n km kn = km refl
  Keeps-if false m n km kn = kn refl

pub ruleset keeps_rules = (Keeps-pure, Keeps-throw, Keeps-lift, Keeps-bind, Keeps-if)

-- Inversion of a sequence that returns.
module _ {S A B : Type 0} where
  pub continue-returned :
      (r : Py A) (f : A → Method S B) (t : S) (b : B)
      → (continue r f t).0 ≡ ok b
      → (a : A) × (r ≡ ok a) × (continue r f t ≡ f a t)
  continue-returned (ok a) f t b h = (a, refl, refl)
  continue-returned (raise e) f t b h = absurd (cc)

  pub bind-returned :
      (m : Method S A) (f : A → Method S B) (s : S) (b : B)
      → ((m >>= f) s).0 ≡ ok b
      → (a : A) × ((m s).0 ≡ ok a) × ((m >>= f) s ≡ f a (m s).1)
  unfolding ◌>>=◌
  bind-returned m f s b h = continue-returned (m s).0 f (m s).1 b h
