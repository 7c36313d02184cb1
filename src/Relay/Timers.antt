-- ===== src/Relay/Timers.antt =====
-- relay/ and metrics/: the loops of the background tasks. A round is a pass and the wait for the
-- next; what a pass reads from outside is its argument.
pub mod Ends
use sms_gateway_v.Base.{ℕ, Option, List, [], ◌∷◌}
use sms_gateway_v.Exec.{Exec, Exception, Result, ok, raised, pure, raise, modify, ◌>>=◌, ◌>>◌}
use sms_gateway_v.Queue.Models.{Codec, Hashing}
use sms_gateway_v.Queue.State.{Queue}
use sms_gateway_v.Relay.State.{Relay}
use sms_gateway_v.Relay.Watchdog.{Watchdog, Reading, Answers}
use sms_gateway_v.Relay.Schedulers.{run_cleanup}
use sms_gateway_v.Relay.Reports.{poll_and_report, count_and_report}

-- How the wait for the stop event ends: its timeout, or `stop`.
pub data Wait : Type 0 where
  timed_out stopped : Wait

go_on : {S : Type 0} → Wait → Exec S Unit → Exec S Unit
go_on timed_out rest = rest
go_on stopped rest = pure tt

-- `while not self._stop_event.is_set()`, over the rounds until it is set
unfoldable pub run_rounds : {S R : Type 0} → (R → Exec S Unit) → List (R × Wait) → Exec S Unit
unfolding go_on
run_rounds pass [] = pure tt
run_rounds pass ((r, wait) ∷ rounds) =
    let rest = run_rounds pass rounds in do pass r; go_on wait rest

module _ {Text : Type 0} ⦃codec : Codec Text⦄ ⦃hashing : Hashing⦄ where
  -- CleanupScheduler.run, with the time of each pass
  unfoldable pub cleanup_run : ℕ → ℕ → List (ℕ × Wait) → Exec (Queue Text) Unit
  cleanup_run sent_retention_days failed_retention_days =
      run_rounds (λ now. run_cleanup now sent_retention_days failed_retention_days)

-- What a poll meets at the modem client: the readings and answers, or an exception that is no
-- ModemError.
abbrev pub Poll : Type 0
Poll = Result (ℕ × Option Reading × Answers)

module _ {Text : Type 0} where
  poll : Poll → Exec (Watchdog × Relay Text) Unit
  poll (raised e) = raise e
  poll (ok (now, reading, answers)) = modify (λ x. poll_and_report now reading answers x.0 x.1)

  -- ModemWatchdog.run
  unfoldable pub watchdog_run : List (Poll × Wait) → Exec (Watchdog × Relay Text) Unit
  unfolding poll
  watchdog_run = run_rounds poll

  -- QueueGaugeUpdater.run
  unfoldable pub gauge_run : List (Unit {0} × Wait) → Exec (Relay Text) Unit
  gauge_run = run_rounds (λ r. modify count_and_report)
