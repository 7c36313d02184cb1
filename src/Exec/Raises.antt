-- ===== src/Exec/Raises.antt =====
-- Which exceptions a method raises: one rule for each way to build one.
use sms_gateway_v.Base.{◌≡◌, refl, Bool, true, false, if◌then◌else◌}
use sms_gateway_v.Exec.{
  Exception, out_of_fuel, Result, ok, raised, Exec, pure, raise, gets, modify, catch, finally,
  after_cleaning, handle_with, continue, ◌>>=◌,
}

-- an exception of the code
abbrev pub is_python : Exception → Bool
is_python out_of_fuel = false
is_python e = true

-- The result is a value or an exception of the code.
abbrev pub is_fuelled {ℓ} : {A : Type ℓ} → Result A → Bool
is_fuelled (ok a) = true
is_fuelled (raised e) = is_python e

pub record Fuelled {ℓ} {S A : Type ℓ} (m : Exec S A) : Type ℓ where
  pub at : (s : S) → is_fuelled (m s).0 ≡ true

module _ {ℓ} {S A : Type ℓ} where
  pub Fuelled-pure : (a : A) → Fuelled {S = S} (pure a)
  unfolding pure
  Fuelled-pure a = record { at = λ s. refl }

  pub Fuelled-raise : (e : Exception) → is_python e ≡ true → Fuelled {S = S} {A = A} (raise e)
  unfolding raise
  Fuelled-raise e h = record { at = λ s. h }

  pub Fuelled-gets : (f : S → A) → Fuelled (gets f)
  unfolding gets
  Fuelled-gets f = record { at = λ s. refl }

  pub Fuelled-if :
      (b : Bool) (m n : Exec S A) → Fuelled m → Fuelled n → Fuelled (if b then m else n)
  Fuelled-if true m n km kn = km
  Fuelled-if false m n km kn = kn

  -- A handler need not deal with exceptions that are not the code's.
  pub Fuelled-catch :
      (m : Exec S A) (h : Exception → Exec S A)
      → Fuelled m
      → ((e : Exception) → is_python e ≡ true → Fuelled (h e))
      → Fuelled (catch m h)
  unfolding catch
  Fuelled-catch m h km kh = record { at = λ s. let (r, s') = m s in handled r s' (km.at s) }
    where
      handled :
          (r : Result A) (s : S) → is_fuelled r ≡ true → is_fuelled (handle_with h r s).0 ≡ true
      handled (ok a) s p = refl
      handled (raised e) s p = (kh e p).at s

  pub Fuelled-finally :
      (m : Exec S A) (clean : Exec S (Unit {ℓ}))
      → Fuelled m
      → Fuelled clean
      → Fuelled (finally m clean)
  unfolding finally
  Fuelled-finally m clean km kc = record {
    at = λ s. let (r, s') = m s in let (q, t) = clean s' in cleaned r q (km.at s) (kc.at s');
  }
    where
      cleaned :
          (r : Result A) (q : Result (Unit {ℓ}))
          → is_fuelled r ≡ true
          → is_fuelled q ≡ true
          → is_fuelled (after_cleaning r q) ≡ true
      cleaned r (ok b) p h = p
      cleaned r (raised e) p h = h

pub Fuelled-modify {ℓ} : {S : Type ℓ} (f : S → S) → Fuelled (modify f)
unfolding modify
Fuelled-modify f = record { at = λ s. refl }

module _ {ℓ} {S A B : Type ℓ} where
  pub Fuelled-bind :
      (m : Exec S A) (f : A → Exec S B) → Fuelled m → ((a : A) → Fuelled (f a)) → Fuelled (m >>= f)
  unfolding ◌>>=◌
  Fuelled-bind m f km kf = record { at = λ s. let (r, s') = m s in next r s' (km.at s) }
    where
      next : (r : Result A) (s : S) → is_fuelled r ≡ true → is_fuelled (continue r f s).0 ≡ true
      next (ok a) s p = (kf a).at s
      next (raised e) s p = p

pub ruleset fuelled_rules = (
  Fuelled-pure, Fuelled-raise, Fuelled-gets, Fuelled-if, Fuelled-catch, Fuelled-finally,
  Fuelled-modify, Fuelled-bind,
)
