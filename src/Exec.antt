-- ===== src/Exec.antt =====
-- Methods that change an object behind a lock and may return an error. What was written before an
-- error stays written, so the object comes back beside the error too.
pub mod Keeps
use parda.Base.{◌≡◌, refl}
use parda.Result.{Result, ok, err}

abbrev pub Exec {ℓ κ ι} : Type ℓ → Type κ → Type ι → Type (ℓ ⊔ κ ⊔ ι)
Exec E S A = S → Result E A × S

module _ {ℓ κ ι} {E : Type ℓ} {S : Type κ} {A : Type ι} where
  abbrev pub pure : A → Exec E S A
  pure a s = (ok a, s)

  abbrev pub raise : E → Exec E S A
  raise e s = (err e, s)

  -- `?` on a result that touches no state
  abbrev pub lift : Result E A → Exec E S A
  lift r s = (r, s)

module _ {ℓ κ} {E : Type ℓ} {S : Type κ} where
  abbrev pub get : Exec E S S
  get s = (ok s, s)

  abbrev pub put : S → Exec E S (Unit {0})
  put s' s = (ok tt, s')

module _ {ℓ κ ι ν} {E : Type ℓ} {S : Type κ} {A : Type ι} {B : Type ν} where
  infixl 10 ◌>>=◌ ◌>>◌
  abbrev pub continue : Result E A → (A → Exec E S B) → Exec E S B
  continue (ok a) f s = f a s
  continue (err e) f s = (err e, s)

  abbrev pub ◌>>=◌ : Exec E S A → (A → Exec E S B) → Exec E S B
  ◌>>=◌ m f s = let (r, s') = m s in continue r f s'

  abbrev pub ◌>>◌ : Exec E S A → Exec E S B → Exec E S B
  m >> n = m >>= λ _. n

-- A step on a result leaves two cases for what follows.
pub lift_cases {ℓ κ ι ν ξ} :
    {E : Type ℓ} {S : Type κ} {A : Type ι} {B : Type ν} (P : Result E B × S → Type ξ)
    (r : Result E A) (f : A → Exec E S B) (s : S)
    → ((e : E) → r ≡ err e → P (err e, s))
    → ((a : A) → r ≡ ok a → P (f a s))
    → P ((lift r >>= f) s)
lift_cases P (ok a) f s failed done = done a refl
lift_cases P (err e) f s failed done = failed e refl

continue_cases {ℓ κ ι ν ξ} :
    {E : Type ℓ} {S : Type κ} {A : Type ι} {B : Type ν} (P : Result E B × S → Type ξ)
    (r : Result E A) (f : A → Exec E S B) (s : S)
    → ((e : E) → r ≡ err e → P (err e, s))
    → ((a : A) → r ≡ ok a → P (f a s))
    → P (continue r f s)
continue_cases P (ok a) f s failed done = done a refl
continue_cases P (err e) f s failed done = failed e refl

-- So does any step: it failed, or what follows goes on from its state.
pub bind_cases {ℓ κ ι ν ξ} :
    {E : Type ℓ} {S : Type κ} {A : Type ι} {B : Type ν} (P : Result E B × S → Type ξ)
    (m : Exec E S A) (f : A → Exec E S B) (s : S)
    → ((e : E) → (m s).0 ≡ err e → P (err e, (m s).1))
    → ((a : A) → (m s).0 ≡ ok a → P (f a (m s).1))
    → P ((m >>= f) s)
bind_cases P m f s = continue_cases P (m s).0 f (m s).1
