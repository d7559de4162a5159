-- ===== src/Common/Exec.antt =====
-- Methods that change a state and may return an error. What was written before an error stays
-- written, so the state comes back beside the error too.
use mathlib.Core.Path.{◌≡◌, refl}
use mathlib.Core.Logic.{◌⊎◌, inl, inr}
use native.Mathlib.Omega.{arith}

pub data Result {ℓ κ} (E : Type ℓ) (A : Type κ) : Type (ℓ ⊔ κ) where
  ok : A → Result E A
  err : E → Result E A

abbrev pub Exec : Type 0 → Type 0 → Type 0 → Type 0
Exec S E A = S → Result E A × S

module _ {S E A : Type 0} where
  abbrev pub pure : A → Exec S E A
  pure a s = (ok a, s)

  abbrev pub raise : E → Exec S E A
  raise e s = (err e, s)

module _ {S E A B : Type 0} where
  abbrev pub continue : Result E A → (A → Exec S E B) → Exec S E B
  continue (ok a) f s = f a s
  continue (err e) f s = (err e, s)

  infixl 10 ◌>>=◌ ◌>>◌
  abbrev pub ◌>>=◌ : Exec S E A → (A → Exec S E B) → Exec S E B
  ◌>>=◌ m f s = continue (m s).0 f (m s).1

  abbrev pub ◌>>◌ : Exec S E A → Exec S E B → Exec S E B
  m >> n = m >>= λ _. n

abbrev pub wrap_result : {E F A : Type 0} → (E → F) → Result E A → Result F A
wrap_result f (ok a) = ok a
wrap_result f (err e) = err (f e)

module _ {S E F A : Type 0} where
  -- `if err != nil { return wrap(err) }`
  abbrev pub wrap_error : (E → F) → Exec S E A → Exec S F A
  wrap_error f m s = (wrap_result f (m s).0, (m s).1)

pub Result-cases :
    {E A : Type 0} (r : Result E A) → ((a : A) × (r ≡ ok a)) ⊎ ((e : E) × (r ≡ err e))
Result-cases (ok a) = inl (a, refl)
Result-cases (err e) = inr (e, refl)

-- A block that returns has run its first part to the end.
pub >>=-eq-ok :
    {S E A B : Type 0} (m : Exec S E A) (f : A → Exec S E B) (s : S) {b : B}
    → ((m >>= f) s).0 ≡ ok b
    → (a : A) × ((m s).0 ≡ ok a) × ((f a (m s).1).0 ≡ ok b) × (((m >>= f) s) ≡ f a (m s).1)
>>=-eq-ok m f s h = elim (Result-cases (m s).0) [
  | inl (a, e) ↦ (a, e, rw (e, continue) at h, rw (e, continue) refl)
  | inr (x, e) ↦ cc (rw (e, continue) at h)
]

pub wrap_error-eq-ok :
    {S E F A : Type 0} (f : E → F) (m : Exec S E A) (s : S) {a : A}
    → (wrap_error f m s).0 ≡ ok a
    → (m s).0 ≡ ok a
wrap_error-eq-ok f m s h = ground (arith, h)
