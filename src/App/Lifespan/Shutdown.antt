-- ===== src/App/Lifespan/Shutdown.antt =====
-- app.py: where a shutdown leaves the relay, the client and the tasks.
use sms_gateway_v.Base.{◌≡◌, refl, ap, Bool, true, false, Option, none, some, if◌then◌else◌}
use sms_gateway_v.Exec.{Exec, Exception, Result, raised, gets, modify, finally, ◌>>=◌}
use sms_gateway_v.Relay.State.{Modem}
use sms_gateway_v.Relay.Lifecycle.{start, stop}
use sms_gateway_v.App.Lifespan.{
  App, TaskEnd, in_time, cancelled, times_out, fails, TaskEnds, set_open, stop_background_task,
  on_relay, stop_heartbeat, shutdown_relay,
}

-- the exception of the first of two
first_of : TaskEnd → Option Exception → Option Exception
first_of (fails e) later = some e
first_of end later = later

-- The exception of the first background task that has failed with another exception than
-- TimeoutError, in the order of the shutdown.
pub first_failure : Bool → TaskEnds → Option Exception
unfolding first_of
first_failure heartbeat ends = first_of ends.gauge (
    first_of ends.cleanup
      (first_of ends.watchdog (if heartbeat then first_of ends.heartbeat none else none)))

module _ {Text : Type 0} where
  -- no background task runs
  pub record IsQuiet (a : App Text) : Type 0 where
    pub gauge : a.gauge_task ≡ false
    pub cleanup : a.cleanup_task ≡ false
    pub watchdog : a.watchdog_task ≡ false
    pub heartbeat : a.heartbeat_task ≡ false

  -- Where a shutdown leaves the application, by the first failure of a task.
  abbrev pub AfterShutdown :
      Modem → App Text → Option Exception → Result (Unit {0}) → App Text → Type 0
  AfterShutdown phone a none r b =
      (r ≡ (stop phone a.relay).0)
      × (b.relay ≡ set_open false (stop phone a.relay).1)
      × (b.relay.worker.telegram.is_open ≡ false)
      × IsQuiet b
  AfterShutdown phone a (some e) r b = (r ≡ raised e) × (b.relay ≡ a.relay)

  -- `m`, run from `now`, ends a shutdown that began at `start`, where the tasks that are left have the
  -- first failure `later`.
  record Shuts (phone : Modem) (start : App Text) (later : Option Exception)
      (m : Exec (App Text) Unit) (now : App Text) : Type 0 where
    at : AfterShutdown phone start later (m now).0 (m now).1

  Shuts-gets :
      {A : Type 0} (phone : Modem) (start : App Text) (later : Option Exception)
      (read : App Text → A) (rest : A → Exec (App Text) Unit) (now : App Text)
      → Shuts phone start later (rest (read now)) now
      → Shuts phone start later (gets read >>= rest) now
  unfolding ◌>>=◌
  Shuts-gets phone start later read rest now k = record { at = k.at }

  Shuts-task :
      (phone : Modem) (start : App Text) (end : TaskEnd) (later : Option Exception)
      (over : App Text → App Text) (rest : Unit {0} → Exec (App Text) Unit) (now : App Text)
      → (over now).relay ≡ start.relay
      → Shuts phone start later (rest tt) (over now)
      → Shuts phone start (first_of end later) (stop_background_task end over >>= rest) now
  unfolding stop_background_task first_of ◌>>=◌
  Shuts-task phone start in_time later over rest now e k = record { at = k.at }
  Shuts-task phone start cancelled later over rest now e k = record { at = k.at }
  Shuts-task phone start times_out later over rest now e k = record { at = k.at }
  Shuts-task phone start (fails x) later over rest now e k = record { at = (refl, e) }

  Shuts-heartbeat :
      (phone : Modem) (start : App Text) (end : TaskEnd) (heartbeat : Bool)
      (rest : Unit {0} → Exec (App Text) Unit) (now : App Text)
      → now.relay ≡ start.relay
      → now.heartbeat_task ≡ heartbeat
      → ((b : App Text)
          → b ≡ record now { heartbeat_task = false }
          → Shuts phone start none (rest tt) b)
      → Shuts phone start
          (if heartbeat then first_of end none else none)
          (stop_heartbeat end heartbeat >>= rest)
          now
  unfolding stop_heartbeat ◌>>=◌
  Shuts-heartbeat phone start end true rest now e h k = record {
    at =
        (Shuts-task phone start end none (λ a. record a { heartbeat_task = false }) rest now e
          (k _ refl)).at;
  }
  Shuts-heartbeat phone start end false rest now e h k = record {
    at = (k now (ap (λ b. record now { heartbeat_task = b }) h)).at;
  }

  Shuts-relay :
      (phone : Modem) (start now : App Text)
      → now.relay ≡ start.relay
      → IsQuiet now
      → Shuts phone start none
          (finally
            (on_relay (stop phone))
            (modify (λ a. record a { relay = set_open false a.relay })))
          now
  unfolding on_relay set_open ◌>>=◌
  Shuts-relay phone start now e q = record {
    at = (
      ap (λ s. (stop phone s).0) e,
      ap (λ s. set_open false (stop phone s).1) e,
      refl,
      record {
        gauge = q.gauge;
        cleanup = q.cleanup;
        watchdog = q.watchdog;
        heartbeat = q.heartbeat;
      },
    );
  }

  pub shutdown-After :
      (phone : Modem) (ends : TaskEnds) (a : App Text)
      → AfterShutdown phone a
          (first_failure a.heartbeat_task ends)
          (shutdown_relay phone ends a).0
          (shutdown_relay phone ends a).1
  unfolding shutdown_relay first_failure
  shutdown-After phone ends a =
      (Shuts-gets phone a _ (λ x. x.heartbeat_task) _ a
        (Shuts-task phone a ends.gauge _ _ _ _ refl (
          Shuts-task phone a ends.cleanup _ _ _ _ refl (
            Shuts-task phone a ends.watchdog _ _ _ _ refl (
              Shuts-heartbeat phone a ends.heartbeat a.heartbeat_task _ _ refl refl (λ b e.
                Shuts-relay phone a b (ap (λ x. x.relay) e) (record {
                  gauge = ap (λ x. x.gauge_task) e;
                  cleanup = ap (λ x. x.cleanup_task) e;
                  watchdog = ap (λ x. x.watchdog_task) e;
                  heartbeat = ap (λ x. x.heartbeat_task) e;
                }))))))).at
