-- ===== src/Exec/Gives.antt =====
-- What holds when a method returns: one rule for each way to build one.
use sms_gateway_v.Base.{◌≡◌, refl, Bool, true, false, if◌then◌else◌}
use sms_gateway_v.Exec.{
  Exception, Result, ok, raised, Exec, pure, raise, gets, finally, after_cleaning, continue, ◌>>=◌,
}
use sms_gateway_v.Exec.Runs.{Runs}

abbrev pub Returns {ℓ} : {S A : Type ℓ} → (A → S → Type ℓ) → Result A → S → Type ℓ
Returns Q (ok a) s = Q a s
Returns Q (raised e) s = Unit

-- From a state in `P`, a method that returns leaves its value and its state in `Q`.
pub record Gives {ℓ} {S A : Type ℓ} (P : S → Type ℓ) (Q : A → S → Type ℓ) (method : Exec S A)
    : Type ℓ where
  pub at : (s : S) → P s → Returns Q (method s).0 (method s).1

module _ {ℓ} {S : Type ℓ} where
  pub Gives-bind :
      {A B : Type ℓ} {P : S → Type ℓ} (R : A → S → Type ℓ) {Q : B → S → Type ℓ} {first : Exec S A}
      {rest : A → Exec S B}
      → Gives P R first
      → ((a : A) → Gives (R a) Q (rest a))
      → Gives P Q (first >>= rest)
  unfolding ◌>>=◌
  Gives-bind {A} {B} {P} R {Q} {first} {rest} k l = record {
    at = λ s p. go (first s).0 (first s).1 (k.at s p);
  }
    where
      go :
          (r : Result A) (s : S)
          → Returns R r s
          → Returns Q (continue r rest s).0 (continue r rest s).1
      go (ok a) s p = (l a).at s p
      go (raised e) s p = tt

  pub Gives-any : {A : Type ℓ} {P : S → Type ℓ} {m : Exec S A} → Gives P (λ a s. Unit) m
  Gives-any {A} {P} {m} = record { at = λ s p. go (m s).0 (m s).1 }
    where
      go : (r : Result A) (s : S) → Returns (λ a t. Unit) r s
      go (ok a) s = tt
      go (raised e) s = tt

  pub Gives-raise :
      {A : Type ℓ} {P : S → Type ℓ} {Q : A → S → Type ℓ} (e : Exception) → Gives P Q (raise e)
  unfolding raise
  Gives-raise e = record { at = λ s p. tt }

  pub Gives-pure :
      {A : Type ℓ} {P : S → Type ℓ} {Q : A → S → Type ℓ} (a : A)
      → ((s : S) → P s → Q a s)
      → Gives P Q (pure a)
  unfolding pure
  Gives-pure a h = record { at = h }

  pub Gives-gets :
      {A : Type ℓ} {P : S → Type ℓ} (read : S → A) → Gives P (λ a s. P s × (read s ≡ a)) (gets read)
  unfolding gets
  Gives-gets read = record { at = λ s p. (p, refl) }

  pub Gives-if :
      {A : Type ℓ} {P : S → Type ℓ} {Q : A → S → Type ℓ} (b : Bool) {m n : Exec S A}
      → (b ≡ true → Gives P Q m)
      → (b ≡ false → Gives P Q n)
      → Gives P Q (if b then m else n)
  Gives-if true k l = k refl
  Gives-if false k l = l refl

  pub Gives-kept : {A : Type ℓ} {I : S → Type ℓ} {m : Exec S A} → Runs I m → Gives I (λ a. I) m
  Gives-kept {A} {I} {m} k = record { at = λ s i. go (m s).0 (m s).1 (k.keeps s i) }
    where
      go : (r : Result A) (s : S) → I s → Returns (λ a. I) r s
      go (ok a) s i = i
      go (raised e) s i = tt

  -- What holds of the first state is a fact for the rest.
  pub Gives-from :
      {A : Type ℓ} {P P' : S → Type ℓ} {Q Q' : A → S → Type ℓ} {m : Exec S A}
      → ((s : S) → P s → P' s)
      → Gives P' Q' m
      → ((s : S) → P s → (a : A) (t : S) → Q' a t → Q a t)
      → Gives P Q m
  Gives-from {A} {P} {P'} {Q} {Q'} {m} f k h = record {
    at = λ s p. go (h s p) (m s).0 (m s).1 (k.at s (f s p));
  }
    where
      go :
          ((a : A) (t : S) → Q' a t → Q a t)
          → (r : Result A) (t : S) → Returns Q' r t
          → Returns Q r t
      go g (ok a) t q = g a t q
      go g (raised e) t q = tt

  pub Gives-finally :
      {A : Type ℓ} {P : S → Type ℓ} {Q : A → S → Type ℓ} {body : Exec S A}
      {clean : Exec S (Unit {ℓ})}
      → Gives P Q body
      → ((a : A) → Runs (Q a) clean)
      → Gives P Q (finally body clean)
  unfolding finally
  Gives-finally {A} {P} {Q} {body} {clean} k l = record {
    at = λ s p. go (body s).0 (body s).1 (k.at s p);
  }
    where
      cleaned :
          (r : Result A) (q : Result (Unit {ℓ})) (s : S)
          → Returns Q r s
          → Returns Q (after_cleaning r q) s
      cleaned r (ok b) s p = p
      cleaned r (raised e) s p = tt

      kept : (r : Result A) (s : S) → Returns Q r s → Returns Q r (clean s).1
      kept (ok a) s p = (l a).keeps s p
      kept (raised e) s p = tt

      go :
          (r : Result A) (s : S)
          → Returns Q r s
          → Returns Q (after_cleaning r (clean s).0) (clean s).1
      go r s p = cleaned r (clean s).0 (clean s).1 (kept r s p)
