-- ===== src/App/Lifespan/Closed.antt =====
-- app.py: what is closed when the application ends.
use sms_gateway_v.Base.{ℕ, String, ◌≡◌, refl, Bool, true, false, Option, none, some, List, is_some}
use sms_gateway_v.Exec.{Result, ok, raised}
use sms_gateway_v.Queue.Models.{IncomingSms, Codec, Hashing}
use sms_gateway_v.Queue.Dedup.{Row}
use sms_gateway_v.Queue.State.{Dirs}
use sms_gateway_v.Metrics.{initial}
use sms_gateway_v.Relay.State.{Relay, Modem}
use sms_gateway_v.Relay.Lifecycle.{start}
use sms_gateway_v.Relay.Lifecycle.States.{Started, IsRolledBack, start-Started}
use sms_gateway_v.Config.Settings.{Settings}
use sms_gateway_v.App.Factory.{Built, build_relay}
use sms_gateway_v.App.Factory.Stopped.{IsStopped, build_relay-IsStopped}
use sms_gateway_v.App.Lifespan.Shutdown.{first_failure, IsQuiet, AfterShutdown, shutdown-After}
use sms_gateway_v.App.Lifespan.{
  App, TaskEnds, set_open, started, start_built, start_result, startup_relay, run_to_end, lifespan,
}

module _ {Text : Type 0} ⦃codec : Codec Text⦄ ⦃hashing : Hashing⦄ where
  -- What the application has come to at its end, by what its startup came to.
  abbrev pub Ended :
      Modem
      → TaskEnds
      → (Relay Text → Relay Text)
      → Result (Unit {0}) × Option (App Text)
      → Result (Unit {0}) × Option (App Text)
      → Type 0
  Ended phone ends serve (raised e, none) (r, b) = (r ≡ raised e) × (b ≡ none)
  Ended phone ends serve (raised e, some a) (r, b) =
      (r ≡ raised e)
      × (b ≡ some a)
      × (a.relay.worker.telegram.is_open ≡ false)
      × IsRolledBack e a.relay
      × IsQuiet a
  Ended phone ends serve (ok _, none) (r, b) = ⊥
  Ended phone ends serve (ok _, some a) (r, none) = ⊥
  Ended phone ends serve (ok _, some a) (r, some b) =
      AfterShutdown phone (record a { relay = serve a.relay }) (first_failure a.heartbeat_task ends)
        r b

  -- The startup either has built nothing, or has left a relay that runs, or one that is rolled back.
  abbrev pub Up : Result (Unit {0}) × Option (App Text) → Type 0
  Up (raised e, none) = Unit
  Up (raised e, some a) =
      (a.relay.worker.telegram.is_open ≡ false) × IsRolledBack e a.relay × IsQuiet a
  Up (ok _, none) = ⊥
  Up (ok _, some a) = Unit

  started-Up :
      (heartbeat : Bool) (now : ℕ) (run : Result (Unit {0}) × Relay Text)
      → Started now run
      → Up ((started heartbeat run).0, some (started heartbeat run).1)
  unfolding started set_open Started
  started-Up heartbeat now (ok _, s) l = tt
  started-Up heartbeat now (raised e, s) l = (
    refl,
    record {
      status = l.status;
      worker_task = l.worker_task;
      started_at = l.started_at;
      last_error = l.last_error;
      pending_text_retries = l.pending_text_retries;
    },
    record { gauge = refl; cleanup = refl; watchdog = refl; heartbeat = refl },
  )

  start_result-Up :
      (now : ℕ) (hex : IncomingSms → String) (phone : Modem) (b : Result (Built Text))
      → IsStopped b
      → Up (start_result now hex phone b)
  unfolding start_result start_built set_open
  start_result-Up now hex phone (raised e) i = tt
  start_result-Up now hex phone (ok built) i =
      started-Up (is_some built.heartbeat) now (start now hex phone (set_open true built.relay))
        (start-Started now hex phone (set_open true built.relay) i)

  startup_relay-Up :
      (dirs : Dirs Text) (rows : List Row) (settings : Settings) (now : ℕ)
      (hex : IncomingSms → String) (phone : Modem)
      → Up (startup_relay dirs rows settings now hex phone)
  unfolding startup_relay
  startup_relay-Up dirs rows settings now hex phone =
      start_result-Up now hex phone (build_relay dirs rows settings initial)
        (build_relay-IsStopped dirs rows settings initial)

  run_to_end-Ended :
      (phone : Modem) (ends : TaskEnds) (serve : Relay Text → Relay Text)
      (up : Result (Unit {0}) × Option (App Text))
      → Up up
      → Ended phone ends serve up (run_to_end phone ends serve up)
  unfolding run_to_end
  run_to_end-Ended phone ends serve (raised e, none) u = (refl, refl)
  run_to_end-Ended phone ends serve (raised e, some a) u = (refl, refl, u.0, u.1, u.2)
  run_to_end-Ended phone ends serve (ok _, none) u = u
  run_to_end-Ended phone ends serve (ok _, some a) u =
      shutdown-After phone ends (record a { relay = serve a.relay })

  -- With the relay enabled, the lifespan of the application ends in one of these ways. If
  -- `build_relay` raises, nothing is built. If the start of the relay raises, the relay is rolled
  -- back, the Telegram client is closed and no background task runs. Otherwise, if no background
  -- task has failed (but for a TimeoutError, which is swallowed), the relay is stopped, the client is closed even if the stop raises, and no
  -- background task runs. But if one has failed, the lifespan raises the exception of the first
  -- and leaves the relay and the client as they are: the relay is not stopped, the client not
  -- closed.
  pub lifespan-Ended :
      (dirs : Dirs Text) (rows : List Row) (settings : Settings) (now : ℕ)
      (hex : IncomingSms → String) (phone : Modem) (ends : TaskEnds)
      (serve : Relay Text → Relay Text)
      → settings.relay_enabled ≡ true
      → Ended phone ends serve
          (startup_relay dirs rows settings now hex phone)
          (lifespan dirs rows settings now hex phone ends serve)
  unfolding lifespan
  lifespan-Ended dirs rows settings now hex phone ends serve enabled =
      simp enabled
        (run_to_end-Ended phone ends serve _ (startup_relay-Up dirs rows settings now hex phone))
