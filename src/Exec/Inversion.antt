-- ===== src/Exec/Inversion.antt =====
-- A sequence that returns: both of its parts have returned.
use sms_gateway_v.Base.{◌≡◌, refl, arith}
use sms_gateway_v.Exec.{Result, ok, raised, Exec, continue, ◌>>=◌}

module _ {ℓ} {S A B : Type ℓ} where
  continue-ok :
      (m : Result A × S) (r : Result A) (f : A → Exec S B) (s s' : S) (b : B)
      → m ≡ (r, s)
      → continue r f s ≡ (ok b, s')
      → (a : A) × (s₁ : S) × (m ≡ (ok a, s₁)) × (f a s₁ ≡ (ok b, s'))
  continue-ok m (ok a) f s s' b e c = (a, s, e, c)
  continue-ok m (raised x) f s s' b e c = ground arith

  pub bind-ok :
      (m : Exec S A) (f : A → Exec S B) (s s' : S) (b : B)
      → (m >>= f) s ≡ (ok b, s')
      → (a : A) × (s₁ : S) × (m s ≡ (ok a, s₁)) × (f a s₁ ≡ (ok b, s'))
  unfolding ◌>>=◌
  bind-ok m f s s' b e = continue-ok (m s) (m s).0 f (m s).1 s' b refl e
