-- ===== src/Exec/Keeps.antt =====
-- Invariants of methods: one rule for each way to build one.
use sms_gateway_v.Base.{Bool, true, false, if◌then◌else◌}
use sms_gateway_v.Exec.{
  Exception, Result, ok, raised, Exec, pure, raise, gets, catch, finally, modify, handle_with,
  continue, ◌>>=◌,
}

-- The state satisfies `I` after the method if it did before, however the method ends.
pub record Keeps {ℓ} {S A : Type ℓ} (I : S → Type ℓ) (method : Exec S A) : Type ℓ where
  pub at : (before : S) → I before → I (method before).1

module _ {ℓ} {S : Type ℓ} {I : S → Type ℓ} where
  -- a sequence: the rest starts where the first part has ended
  rest-keeps :
      {A B : Type ℓ} (rest : A → Exec S B) (r : Result A) (mid : S)
      → ((a : A) → Keeps I (rest a))
      → I mid
      → I (continue r rest mid).1
  rest-keeps rest (raised e) mid k i = i
  rest-keeps rest (ok a) mid k i = (k a).at mid i

  pub Keeps-bind :
      {A B : Type ℓ} (first : Exec S A) (rest : A → Exec S B)
      → Keeps I first
      → ((a : A) → Keeps I (rest a))
      → Keeps I (first >>= rest)
  unfolding ◌>>=◌
  Keeps-bind first rest k l = record {
    at = λ s i. rest-keeps rest (first s).0 (first s).1 l (k.at s i);
  }

  -- a handler starts where the exception was raised
  handler-keeps :
      {A : Type ℓ} (handler : Exception → Exec S A) (r : Result A) (mid : S)
      → ((e : Exception) → Keeps I (handler e))
      → I mid
      → I (handle_with handler r mid).1
  handler-keeps handler (raised e) mid k i = (k e).at mid i
  handler-keeps handler (ok a) mid k i = i

  pub Keeps-catch :
      {A : Type ℓ} (body : Exec S A) (handler : Exception → Exec S A)
      → Keeps I body
      → ((e : Exception) → Keeps I (handler e))
      → Keeps I (catch body handler)
  unfolding catch
  Keeps-catch body handler k l = record {
    at = λ s i. handler-keeps handler (body s).0 (body s).1 l (k.at s i);
  }

  pub Keeps-finally :
      {A : Type ℓ} (body : Exec S A) (clean : Exec S (Unit {ℓ}))
      → Keeps I body
      → Keeps I clean
      → Keeps I (finally body clean)
  unfolding finally
  Keeps-finally body clean k l = record { at = λ s i. l.at (body s).1 (k.at s i) }

  pub Keeps-modify : (f : S → S) → ((s : S) → I s → I (f s)) → Keeps I (modify f)
  unfolding modify
  Keeps-modify f k = record { at = k }

  pub Keeps-if :
      {A : Type ℓ} (test : Bool) (then_do else_do : Exec S A)
      → Keeps I then_do
      → Keeps I else_do
      → Keeps I (if test then then_do else else_do)
  Keeps-if false then_do else_do k l = l
  Keeps-if true then_do else_do k l = k

  -- what only reads, returns or raises
  pub Keeps-gets : {A : Type ℓ} (read : S → A) → Keeps I (gets read)
  unfolding gets
  Keeps-gets read = record { at = λ s i. i }

  pub Keeps-raise : {A : Type ℓ} (e : Exception) → Keeps I (raise {A = A} e)
  unfolding raise
  Keeps-raise e = record { at = λ s i. i }

  pub Keeps-pure : {A : Type ℓ} (value : A) → Keeps I (pure value)
  unfolding pure
  Keeps-pure value = record { at = λ s i. i }

pub ruleset keeps_rules = (Keeps-bind, Keeps-catch, Keeps-if, Keeps-gets, Keeps-raise, Keeps-pure)
