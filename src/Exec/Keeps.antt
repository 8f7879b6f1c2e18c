-- ===== src/Exec/Keeps.antt =====
-- Invariants of actions: one rule for each way in which the source's methods are put together.
use parda.Result.{Result, ok, err}
use parda.Exec.{Exec, lift, ◌>>=◌, continue}

-- The action keeps `P`, also where it returns an error.
pub record Keeps {ℓ} {E S A : Type ℓ} (P : S → Type ℓ) (m : Exec E S A) : Type ℓ where
  pub run : (s : S) → P s → P (m s).1

module _ {ℓ} {E S A B : Type ℓ} (P : S → Type ℓ) where
  after_step :
      (r : Result E A) (s : S) (f : A → Exec E S B)
      → P s
      → ((a : A) → Keeps P (f a))
      → P (continue r f s).1
  after_step (ok a) s f h kf = (kf a).run s h
  after_step (err e) s f h kf = h

  pub Keeps-bind :
      (m : Exec E S A) (f : A → Exec E S B)
      → Keeps P m
      → ((a : A) → Keeps P (f a))
      → Keeps P (m >>= f)
  Keeps-bind m f km kf = record { run = λ s h. after_step (m s).0 (m s).1 f (km.run s h) kf }

pub Keeps-lift {ℓ} : {E S A : Type ℓ} (P : S → Type ℓ) (r : Result E A) → Keeps P (lift {S = S} r)
Keeps-lift P r = record { run = λ s h. h }
