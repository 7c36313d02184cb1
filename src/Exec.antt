-- ===== src/Exec.antt =====
-- Methods that mutate an object and may raise. What was written before a raise stays written, so
-- the state comes back beside the exception too.
pub mod Keeps
pub mod Raises
pub mod Inversion
pub mod Runs
pub mod Gives
use sms_gateway_v.Base.{ℕ, String, ◌≡◌, refl, Bool, true, false}

-- What a D-Bus call fails with, as far as the code tells failures apart: a `DBusError` of one of two
-- types, an `InterfaceNotFoundError`, another of DBUS_OPERATION_ERRORS, and one that is none of these.
pub data Fault : Type 0 where
  unknown_object unknown_property interface_not_found operation foreign : Fault

-- The kinds of ModemManager failures (modem/exceptions.py). `unavailable_by` is a
-- `ModemManagerUnavailable` with its `__cause__`.
pub data ModemFailure : Type 0 where
  modem_error unavailable modem_not_found busy delete_failed read_missing read_skipped :
      ModemFailure
  unavailable_by : Fault → ModemFailure

-- The exceptions that the code raises and catches. The cancellation of a task is not one of them.
pub data Exception : Type 0 where
  -- queue/exceptions.py
  queue_error duplicate_message queue_corrupted item_not_found : Exception
  -- Python's own
  value_error file_not_found validation_error overflow_error unexpected : Exception
  -- what a D-Bus call fails with, where the code does not catch it
  bus_error : Fault → Exception
  -- telegram/exceptions.py
  telegram_error auth_error transport_error : Exception
  rate_limited : ℕ → Exception
  -- modem/exceptions.py, with the message
  modem : ModemFailure → String → Exception
  -- relay/exceptions.py
  relay_error : Exception
  -- no exception of the code: a loop of the model has used up its fuel
  out_of_fuel : Exception

pub data Result {ℓ} (A : Type ℓ) : Type ℓ where
  ok : A → Result A
  raised : Exception → Result A

abbrev pub Exec {ℓ} : Type ℓ → Type ℓ → Type ℓ
Exec S A = S → Result A × S

-- what a try comes to whose `finally` comes to the second
abbrev pub after_cleaning {ℓ κ} : {A : Type ℓ} {B : Type κ} → Result A → Result B → Result A
after_cleaning r (ok b) = r
after_cleaning r (raised e) = raised e

module _ {ℓ} {S A : Type ℓ} where
  pub gets : (S → A) → Exec S A
  gets read s = (ok (read s), s)

  pub raise : Exception → Exec S A
  raise e s = (raised e, s)

  pub pure : A → Exec S A
  pure value s = (ok value, s)

  abbrev pub handle_with : (Exception → Exec S A) → Result A → Exec S A
  handle_with h (ok a) s = (ok a, s)
  handle_with h (raised e) s = h e s

  -- `try: m  except ...: h`
  pub catch : Exec S A → (Exception → Exec S A) → Exec S A
  catch m h s = let (r, s') = m s in handle_with h r s'

  -- `try: body  finally: clean`
  pub finally : Exec S A → Exec S (Unit {ℓ}) → Exec S A
  finally body clean s =
      let (r, mid) = body s in let (q, end) = clean mid in (after_cleaning r q, end)

pub modify {ℓ} : {S : Type ℓ} → (S → S) → Exec S (Unit {ℓ})
modify f s = (ok tt, f s)

module _ {ℓ} {S A B : Type ℓ} where
  abbrev pub continue : Result A → (A → Exec S B) → Exec S B
  continue (ok a) f s = f a s
  continue (raised e) f s = (raised e, s)

  infixl 10 ◌>>=◌ ◌>>◌
  -- To open this opens the other ways to build a method too.
  unfoldable pub ◌>>=◌ : Exec S A → (A → Exec S B) → Exec S B
  unfolding pure raise gets catch finally modify
  ◌>>=◌ m f s = let (r, s') = m s in continue r f s'

  abbrev pub ◌>>◌ : Exec S A → Exec S B → Exec S B
  m >> n = m >>= λ _. n
