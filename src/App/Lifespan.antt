-- ===== src/App/Lifespan.antt =====
-- app.py: what the application does at its start and at its end.
pub mod Shutdown
pub mod Closed
use sms_gateway_v.Base.{
  ℕ, String, Bool, true, false, Option, none, some, List, is_some, if◌then◌else◌,
}
use sms_gateway_v.Exec.{
  Exec, Exception, Result, ok, raised, pure, raise, gets, modify, finally, ◌>>=◌, ◌>>◌,
}
use sms_gateway_v.Queue.Models.{IncomingSms, Codec, Hashing}
use sms_gateway_v.Queue.Dedup.{Row}
use sms_gateway_v.Queue.State.{Dirs}
use sms_gateway_v.Telegram.Client.{Client}
use sms_gateway_v.Metrics.{Metrics, initial}
use sms_gateway_v.Relay.State.{Relay, Modem}
use sms_gateway_v.Relay.Lifecycle.{start, stop}
use sms_gateway_v.Config.Settings.{Settings}
use sms_gateway_v.App.Factory.{Built, build_relay}

-- The relay that was built, with the Telegram client that it holds, and the background tasks that run.
pub record App (Text : Type 0) : Type 0 where
  pub relay : Relay Text
  pub gauge_task : Bool
  pub cleanup_task : Bool
  pub watchdog_task : Bool
  pub heartbeat_task : Bool

-- How a background task ends once its scheduler was told to stop: in time, by its cancellation after
-- BACKGROUND_TASK_SHUTDOWN_TIMEOUT_SECONDS, with a TimeoutError of its own, or with another exception.
pub data TaskEnd : Type 0 where
  in_time cancelled times_out : TaskEnd
  fails : Exception → TaskEnd

pub record TaskEnds : Type 0 where
  pub gauge : TaskEnd
  pub cleanup : TaskEnd
  pub watchdog : TaskEnd
  pub heartbeat : TaskEnd

module _ {Text : Type 0} where
  -- TelegramClient.__aenter__ and TelegramClient.__aexit__
  pub set_open : Bool → Relay Text → Relay Text
  set_open is_open s = record s {
    worker = record s.worker { telegram = record s.worker.telegram { is_open = is_open } };
  }

  -- _stop_background_task
  stop_background_task : TaskEnd → (App Text → App Text) → Exec (App Text) Unit
  stop_background_task in_time over = modify over
  stop_background_task cancelled over = modify over
  stop_background_task times_out over = modify over
  stop_background_task (fails e) over = do modify over; raise e

  on_relay : Exec (Relay Text) Unit → Exec (App Text) Unit
  on_relay m a = let (r, s) = m a.relay in (r, record a { relay = s })

  stop_heartbeat : TaskEnd → Bool → Exec (App Text) Unit
  unfolding stop_background_task
  stop_heartbeat end false = pure tt
  stop_heartbeat end true = stop_background_task end (λ a. record a { heartbeat_task = false })

  -- _shutdown_relay
  unfoldable pub shutdown_relay : Modem → TaskEnds → Exec (App Text) Unit
  unfolding stop_background_task stop_heartbeat on_relay set_open
  shutdown_relay phone ends = do
    heartbeat_task ← gets (λ a. a.heartbeat_task)
    stop_background_task ends.gauge (λ a. record a { gauge_task = false })
    stop_background_task ends.cleanup (λ a. record a { cleanup_task = false })
    stop_background_task ends.watchdog (λ a. record a { watchdog_task = false })
    stop_heartbeat ends.heartbeat heartbeat_task
    finally (on_relay (stop phone)) (modify (λ a. record a { relay = set_open false a.relay }))

module _ {Text : Type 0} ⦃codec : Codec Text⦄ ⦃hashing : Hashing⦄ where
  -- The `try` of `_startup_relay`, and the tasks that it creates.
  started : Bool → Result (Unit {0}) × Relay Text → Result (Unit {0}) × App Text
  unfolding set_open
  started heartbeat (ok _, s) = (
    ok tt,
    record {
      relay = s;
      gauge_task = true;
      cleanup_task = true;
      watchdog_task = true;
      heartbeat_task = heartbeat;
    },
  )
  started heartbeat (raised e, s) = (
    raised e,
    record {
      relay = set_open false s;
      gauge_task = false;
      cleanup_task = false;
      watchdog_task = false;
      heartbeat_task = false;
    },
  )

  start_built : ℕ → (IncomingSms → String) → Modem → Built Text → Result (Unit {0}) × App Text
  unfolding set_open started
  start_built now hex phone built =
      started (is_some built.heartbeat) (start now hex phone (set_open true built.relay))

  -- what has been built, if anything
  start_result :
      ℕ
      → (IncomingSms → String)
      → Modem
      → Result (Built Text)
      → Result (Unit {0}) × Option (App Text)
  unfolding start_built
  start_result now hex phone (raised e) = (raised e, none)
  start_result now hex phone (ok built) =
      let (r, a) = start_built now hex phone built in (r, some a)

  -- _startup_relay
  unfoldable pub startup_relay :
      Dirs Text
      → List Row
      → Settings
      → ℕ
      → (IncomingSms → String)
      → Modem
      → Result (Unit {0}) × Option (App Text)
  unfolding start_result
  startup_relay dirs rows settings now hex phone =
      start_result now hex phone (build_relay dirs rows settings initial)

  -- `lifespan`: the server runs if the startup returns, and changes the relay meanwhile.
  run_to_end :
      Modem
      → TaskEnds
      → (Relay Text → Relay Text)
      → Result (Unit {0}) × Option (App Text)
      → Result (Unit {0}) × Option (App Text)
  run_to_end phone ends serve (ok _, some a) =
      let (r, b) = shutdown_relay phone ends (record a { relay = serve a.relay }) in (r, some b)
  run_to_end phone ends serve (r, a) = (r, a)

  unfoldable pub lifespan :
      Dirs Text
      → List Row
      → Settings
      → ℕ
      → (IncomingSms → String)
      → Modem
      → TaskEnds
      → (Relay Text → Relay Text)
      → Result (Unit {0}) × Option (App Text)
  unfolding run_to_end
  lifespan dirs rows settings now hex phone ends serve =
      let run = run_to_end phone ends serve (startup_relay dirs rows settings now hex phone) in
      if settings.relay_enabled then run else (ok tt, none)
