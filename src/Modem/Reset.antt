-- ===== src/Modem/Reset.antt =====
-- modem/client.py: the reset of a modem, and the wait until it is back.
pub mod Looks
pub mod Terminates
pub mod Kept
use sms_gateway_v.Base.{
  ℕ, zero, suc, ◌+◌, ◌-◌, ◌/◌, String, Bool, true, false, not, Option, none, some, List, [], ◌∷◌,
  min, ltb, leb, ◌==◌, contains, if◌then◌else◌,
}
use sms_gateway_v.Exec.{
  Exec, Exception, ok, modem, modem_not_found, out_of_fuel, pure, raise, gets, modify, catch, ◌>>=◌,
  ◌>>◌,
}
use sms_gateway_v.Modem.Bus.{Bus}
use sms_gateway_v.Modem.Client.{
  Client, words, modem_interface, unavailable_from, call, list_modem_paths,
  unsubscribe_all_added_watchers, require_resubscribe,
}
use sms_gateway_v.Modem.Watchers.{subscribe_missing_added_watchers}
use sms_gateway_v.Modem.Control.{get_modem_interfaces}

-- _RESET_REAPPEAR_POLL_INTERVAL_SECONDS
abbrev pub poll_interval : ℕ
poll_interval = 2_000_000

-- What a look for the modem comes to: it is back, or is waited for, and whether the path that was
-- reset has been away.
pub data Look : Type 0 where
  reappeared : Look
  waits : Bool → Look

-- `next(path for path in modem_paths if path != reset_modem_path)`
pub fresh_path : String → List String → Option String
fresh_path reset_modem_path [] = none
fresh_path reset_modem_path (path ∷ paths) =
    if path == reset_modem_path then fresh_path reset_modem_path paths else some path

pub set_modem_path : Option String → Exec Client Unit
set_modem_path path = modify (λ c. record c { modem_path = path })

module _ ⦃bus : Bus⦄ where
  -- asyncio.sleep
  sleep : ℕ → Exec Client Unit
  sleep delay c =
      (ok tt, record c { calls = suc c.calls; now = c.now + (delay + bus.takes c.calls) })

  back_at : String → Exec Client Look
  unfolding set_modem_path
  back_at modem_path = do
    set_modem_path (some modem_path)
    subscribe_missing_added_watchers modem_path
    pure reappeared

  not_yet : Bool → Exec Client Look
  unfolding set_modem_path
  not_yet disappeared = do set_modem_path none; pure (waits disappeared)

  pub look_at : String → Bool → List String → Option String → Exec Client Look
  unfolding back_at not_yet
  look_at reset_modem_path disappeared modem_paths (some fresh) = back_at fresh
  look_at reset_modem_path disappeared modem_paths none =
      if contains modem_paths reset_modem_path
      then (if disappeared then back_at reset_modem_path else not_yet false)
      else not_yet true

  look_failed : Bool → Exception → Exec Client Look
  look_failed disappeared (modem modem_not_found message) = pure (waits true)
  look_failed disappeared (modem failure message) = pure (waits disappeared)
  look_failed disappeared e = raise e

  pub look : String → Bool → Exec Client Look
  unfolding look_at look_failed fresh_path
  look reset_modem_path disappeared =
      catch
        (do
          modem_paths ← list_modem_paths
          look_at reset_modem_path disappeared modem_paths
              (fresh_path reset_modem_path modem_paths))
        (look_failed disappeared)

  -- The sleep before the next look, unless the time is over: whether to look again.
  pause : ℕ → ℕ → Exec Client Bool
  unfolding sleep
  pause timeout started_at = do
    elapsed ← gets (λ c. c.now - started_at)
    (if leb timeout elapsed
        then pure false
        else (do sleep (min poll_interval (timeout - elapsed)); pure true))

  after_look : ℕ → ℕ → (Bool → Exec Client Unit) → Look → Exec Client Unit
  unfolding pause
  after_look timeout started_at again reappeared = pure tt
  after_look timeout started_at again (waits disappeared) = do
    goes_on ← pause timeout started_at
    (if goes_on then again disappeared else pure tt)

  -- the loop, on fuel; the flag is reset_modem_path_disappeared
  wait_from : ℕ → ℕ → ℕ → String → Bool → Exec Client Unit
  unfolding look after_look
  wait_from zero timeout started_at reset_modem_path disappeared = raise out_of_fuel
  wait_from (suc fuel) timeout started_at reset_modem_path disappeared =
      let again = wait_from fuel timeout started_at reset_modem_path in
      do
        in_time ← gets (λ c. ltb (c.now - started_at) timeout)
        (if in_time
            then (do
              seen ← look reset_modem_path disappeared
              after_look timeout started_at again seen)
            else pure tt)

  -- _wait_for_reset_reappear
  unfoldable pub wait_for_reset_reappear : ℕ → String → Exec Client Unit
  unfolding wait_from
  wait_for_reset_reappear timeout reset_modem_path = do
    started_at ← gets (λ c. c.now)
    wait_from (suc (suc (timeout / poll_interval))) timeout started_at reset_modem_path false

  -- ModemManagerClient.reset
  unfoldable pub reset : ℕ → Exec Client Unit
  unfolding set_modem_path
  reset timeout = do
    modem_path ← get_modem_interfaces (modem_interface ∷ [])
    call (unavailable_from (words "failed to reset modem at" modem_path))
        (λ n. bus.reset n modem_path)
    set_modem_path none
    unsubscribe_all_added_watchers
    require_resubscribe
    required ← gets (λ c. c.added_watch_resubscribe_required)
    (if required then wait_for_reset_reappear timeout modem_path else pure tt)
