-- ===== src/Relay/Messages/Undecoded.antt =====
-- relay/relay.py: the retries of a message whose text was not decoded.
use sms_gateway_v.Base.{
  ℕ, ap, sym, Bool-cases, inl, inr, ◌∙◌, String, ◌≡◌, refl, Bool, true, false, Option, none, some,
  List, [], ◌∷◌, if◌then◌else◌,
}
use sms_gateway_v.Exec.{Exec, Result, ok, raised, pure, raise, continue, ◌>>=◌}
use sms_gateway_v.Queue.Models.{IncomingSms, Codec, Hashing}
use sms_gateway_v.Relay.State.{Relay, Modem}
use sms_gateway_v.Relay.Messages.{
  is_passed_over, process_sms, retry_read, give_up, retry_from, retry_undecoded_sms_text,
}

-- whether a read has neither a text nor an exception
abbrev pub is_undecoded : Result (Option IncomingSms) → Bool
is_undecoded (ok none) = true
is_undecoded _ = false

-- the first attempt whose read has a text or an exception
pub first_decoded : String → List (ℕ × Modem) → Option (ℕ × Modem)
first_decoded path [] = none
first_decoded path ((now, phone) ∷ attempts) =
    if is_undecoded (phone.read_message path)
    then first_decoded path attempts
    else some (now, phone)

pub last_of : ℕ × Modem → List (ℕ × Modem) → ℕ × Modem
last_of a [] = a
last_of a (b ∷ bs) = last_of b bs

undecoded : (r : Result (Option IncomingSms)) → is_undecoded r ≡ true → r ≡ ok none
undecoded (ok none) e = refl
undecoded (ok (some sms)) e = cc
undecoded (raised x) e = cc

passed :
    (path : String) (now : ℕ) (phone : Modem) (attempts : List (ℕ × Modem))
    → is_undecoded (phone.read_message path) ≡ true
    → first_decoded path ((now, phone) ∷ attempts) ≡ first_decoded path attempts
unfolding first_decoded
passed path now phone attempts e = simp (e)

found :
    (path : String) (now : ℕ) (phone : Modem) (attempts : List (ℕ × Modem))
    → is_undecoded (phone.read_message path) ≡ false
    → first_decoded path ((now, phone) ∷ attempts) ≡ some (now, phone)
unfolding first_decoded
found path now phone attempts e = simp (e)

module _ {Text : Type 0} ⦃codec : Codec Text⦄ ⦃hashing : Hashing⦄ where
  -- What the retries come to.
  pub retried : String → String → ℕ × Modem → Option (ℕ × Modem) → Exec (Relay Text) Unit
  retried hex path last none = give_up last.0 last.1 path
  retried hex path last (some a) =
      retry_read a.0 hex a.1 (a.1.read_message path) >>= λ done. pure tt

  ends :
      (m : Exec (Relay Text) Bool) (rest : Exec (Relay Text) Unit) (s : Relay Text)
      → ((t : Relay Text) → m s ≡ (ok false, t) → ⊥)
      → (m >>= λ done. if done then pure tt else rest) s ≡ (m >>= λ done. pure tt) s
  unfolding ◌>>=◌
  ends m rest s h = go (m s).0 (m s).1 h refl
    where
      go :
          (r : Result Bool) (t : Relay Text)
          → ((u : Relay Text) → m s ≡ (ok false, u) → ⊥)
          → m s ≡ (r, t)
          → continue r (λ done. if done then pure tt else rest) t ≡ continue r (λ done. pure tt) t
      go (ok true) t k e = refl
      go (ok false) t k e = absurd (k t e)
      go (raised x) t k e = refl

  done_read :
      (now : ℕ) (hex : String) (phone : Modem) (r : Result (Option IncomingSms)) (s t : Relay Text)
      → is_undecoded r ≡ false
      → retry_read now hex phone r s ≡ (ok false, t)
      → ⊥
  unfolding retry_read ◌>>=◌
  done_read now hex phone (ok none) s t u e = cc
  done_read now hex phone (ok (some sms)) s t u e =
      go (process_sms now hex phone false sms s).0 (process_sms now hex phone false sms s).1 e
    where
      go : (r : Result Unit) (v : Relay Text) → continue r (λ x. pure true) v ≡ (ok false, t) → ⊥
      go (ok x) v k = cc
      go (raised x) v k = cc
  done_read now hex phone (raised x) s t u e = go (is_passed_over x) e
    where
      go : (b : Bool) → (if b then pure true else raise x) s ≡ (ok false, t) → ⊥
      go true k = cc
      go false k = cc

  first_step :
      (hex path : String) (last : ℕ × Modem) (now : ℕ) (phone : Modem) (attempts : List (ℕ × Modem))
      (s : Relay Text)
      → phone.read_message path ≡ ok none
      → retry_from hex last ((now, phone) ∷ attempts) path s
        ≡ retry_from hex (now, phone) attempts path s
  unfolding retry_from retry_read ◌>>=◌
  first_step hex path last now phone attempts s e = simp (e)

  first_read :
      (hex path : String) (last : ℕ × Modem) (now : ℕ) (phone : Modem) (attempts : List (ℕ × Modem))
      (s : Relay Text)
      → is_undecoded (phone.read_message path) ≡ false
      → retry_from hex last ((now, phone) ∷ attempts) path s
        ≡ retried hex path (last_of (now, phone) attempts) (some (now, phone)) s
  unfolding retry_from retried
  first_read hex path last now phone attempts s e =
      ends (retry_read now hex phone (phone.read_message path))
        (retry_from hex (now, phone) attempts path) s
        (λ t. done_read now hex phone (phone.read_message path) s t e)

  -- The retries of a message without text read it until one read has a text or an exception, handle
  -- that read once and read no more; where no read has one, the message is given up after the last.
  pub retry_undecoded_sms_text-retried :
      (hex : String) (last : ℕ × Modem) (attempts : List (ℕ × Modem)) (path : String)
      (s : Relay Text)
      → retry_undecoded_sms_text hex last attempts path s
        ≡ retried hex path (last_of last attempts) (first_decoded path attempts) s
  unfolding retry_undecoded_sms_text retry_from retried first_decoded last_of
  retry_undecoded_sms_text-retried hex last [] path s = refl
  retry_undecoded_sms_text-retried hex last ((now, phone) ∷ attempts) path s =
      elim (Bool-cases (is_undecoded (phone.read_message path))) [
        | inl e ↦
            first_step hex path last now phone attempts s (undecoded (phone.read_message path) e)
            ∙ retry_undecoded_sms_text-retried hex (now, phone) attempts path s
            ∙ ap (λ a. retried hex path (last_of (now, phone) attempts) a s)
                (sym (passed path now phone attempts e))
        | inr e ↦
            first_read hex path last now phone attempts s e
            ∙ ap (λ a. retried hex path (last_of (now, phone) attempts) a s)
                (sym (found path now phone attempts e))
      ]
