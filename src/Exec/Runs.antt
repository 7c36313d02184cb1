-- ===== src/Exec/Runs.antt =====
-- Methods that keep an invariant and raise only exceptions of the code, where it holds before: one
-- rule for each way to build one.
use sms_gateway_v.Base.{◌≡◌, refl, Bool, true, false, if◌then◌else◌}
use sms_gateway_v.Exec.{
  Exception, Result, ok, raised, Exec, pure, raise, gets, modify, catch, finally, handle_with,
  after_cleaning, continue, ◌>>=◌,
}
use sms_gateway_v.Exec.Raises.{is_python, is_fuelled}

pub record Runs {ℓ} {S A : Type ℓ} (I : S → Type ℓ) (method : Exec S A) : Type ℓ where
  pub keeps : (s : S) → I s → I (method s).1
  pub fuelled : (s : S) → I s → is_fuelled (method s).0 ≡ true

module _ {ℓ} {S : Type ℓ} {I : S → Type ℓ} where
  pub Runs-bind :
      {A B : Type ℓ} (first : Exec S A) (rest : A → Exec S B)
      → Runs I first
      → ((a : A) → Runs I (rest a))
      → Runs I (first >>= rest)
  unfolding ◌>>=◌
  Runs-bind {A} first rest k l = record {
    keeps = λ s i. kept (first s).0 (first s).1 (k.keeps s i);
    fuelled = λ s i. ended (first s).0 (first s).1 (k.keeps s i) (k.fuelled s i);
  }
    where
      kept : (r : Result A) (s : S) → I s → I (continue r rest s).1
      kept (ok a) s i = (l a).keeps s i
      kept (raised e) s i = i

      ended :
          (r : Result A) (s : S)
          → I s
          → is_fuelled r ≡ true
          → is_fuelled (continue r rest s).0 ≡ true
      ended (ok a) s i p = (l a).fuelled s i
      ended (raised e) s i p = p

  -- A handler meets only what the body raises.
  pub Runs-catch :
      {A : Type ℓ} (body : Exec S A) (handler : Exception → Exec S A)
      → Runs I body
      → ((e : Exception) → is_python e ≡ true → Runs I (handler e))
      → Runs I (catch body handler)
  unfolding catch
  Runs-catch {A} body handler k l = record {
    keeps = λ s i. kept (body s).0 (body s).1 (k.keeps s i) (k.fuelled s i);
    fuelled = λ s i. ended (body s).0 (body s).1 (k.keeps s i) (k.fuelled s i);
  }
    where
      kept : (r : Result A) (s : S) → I s → is_fuelled r ≡ true → I (handle_with handler r s).1
      kept (ok a) s i p = i
      kept (raised e) s i p = (l e p).keeps s i

      ended :
          (r : Result A) (s : S)
          → I s
          → is_fuelled r ≡ true
          → is_fuelled (handle_with handler r s).0 ≡ true
      ended (ok a) s i p = p
      ended (raised e) s i p = (l e p).fuelled s i

  pub Runs-finally :
      {A : Type ℓ} (body : Exec S A) (clean : Exec S (Unit {ℓ}))
      → Runs I body
      → Runs I clean
      → Runs I (finally body clean)
  unfolding finally
  Runs-finally {A} body clean k l = record {
    keeps = λ s i. l.keeps (body s).1 (k.keeps s i);
    fuelled = λ s i.
        cleaned (body s).0 (clean (body s).1).0 (k.fuelled s i)
          (l.fuelled (body s).1 (k.keeps s i));
  }
    where
      cleaned :
          (r : Result A) (q : Result (Unit {ℓ}))
          → is_fuelled r ≡ true
          → is_fuelled q ≡ true
          → is_fuelled (after_cleaning r q) ≡ true
      cleaned r (ok b) p h = p
      cleaned r (raised e) p h = h

  pub Runs-if :
      {A : Type ℓ} (test : Bool) (then_do else_do : Exec S A)
      → Runs I then_do
      → Runs I else_do
      → Runs I (if test then then_do else else_do)
  Runs-if true then_do else_do k l = k
  Runs-if false then_do else_do k l = l

  pub Runs-gets : {A : Type ℓ} (read : S → A) → Runs I (gets read)
  unfolding gets
  Runs-gets read = record { keeps = λ s i. i; fuelled = λ s i. refl }

  pub Runs-raise : {A : Type ℓ} (e : Exception) → is_python e ≡ true → Runs I (raise {A = A} e)
  unfolding raise
  Runs-raise e p = record { keeps = λ s i. i; fuelled = λ s i. p }

  pub Runs-pure : {A : Type ℓ} (value : A) → Runs I (pure value)
  unfolding pure
  Runs-pure value = record { keeps = λ s i. i; fuelled = λ s i. refl }

  pub Runs-modify : (f : S → S) → ((s : S) → I s → I (f s)) → Runs I (modify f)
  unfolding modify
  Runs-modify f k = record { keeps = k; fuelled = λ s i. refl }

pub ruleset runs_rules =
    (Runs-bind, Runs-catch, Runs-finally, Runs-if, Runs-gets, Runs-raise, Runs-pure)
