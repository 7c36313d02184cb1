-- ===== src/Relay/Timers/Ends.antt =====
-- relay/: how the background tasks end.
use sms_gateway_v.Base.{ℕ, ◌≡◌, refl, List, [], ◌∷◌, arith}
use sms_gateway_v.Exec.{Exec, Result, ok, raised, ◌>>=◌}
use sms_gateway_v.Queue.Models.{Codec, Hashing}
use sms_gateway_v.Queue.State.{Queue}
use sms_gateway_v.Relay.State.{Relay}
use sms_gateway_v.Relay.Watchdog.{Watchdog}
use sms_gateway_v.Relay.Schedulers.{run_cleanup}
use sms_gateway_v.Relay.Timers.{
  Wait, timed_out, stopped, go_on, run_rounds, cleanup_run, Poll, poll, watchdog_run, gauge_run,
}

-- A loop whose passes return ends when it is stopped.
run_rounds-returns :
    {S R : Type 0} (pass : R → Exec S Unit)
    → ((r : R) (s : S) → (pass r s).0 ≡ ok tt)
    → (rounds : List (R × Wait)) (s : S) → (run_rounds pass rounds s).0 ≡ ok tt
unfolding run_rounds go_on ◌>>=◌
run_rounds-returns pass k [] s = refl
run_rounds-returns pass k ((r, timed_out) ∷ rounds) s =
    simp (k r s) (run_rounds-returns pass k rounds (pass r s).1)
run_rounds-returns pass k ((r, stopped) ∷ rounds) s = simp (k r s)

-- the exception of the first poll that fails, before the stop
pub first_failed : List (Poll × Wait) → Result (Unit {0})
first_failed [] = ok tt
first_failed ((raised e, wait) ∷ rounds) = raised e
first_failed ((ok p, timed_out) ∷ rounds) = first_failed rounds
first_failed ((ok p, stopped) ∷ rounds) = ok tt

module _ {Text : Type 0} ⦃codec : Codec Text⦄ ⦃hashing : Hashing⦄ where
  run_cleanup-returns :
      (now sent_days failed_days : ℕ) (q : Queue Text)
      → (run_cleanup now sent_days failed_days q).0 ≡ ok tt
  unfolding run_cleanup ◌>>=◌
  run_cleanup-returns now sent_days failed_days q = ground arith

  -- The cleanup's task ends when it is stopped, whatever its passes meet.
  pub cleanup_run-returns :
      (sent_days failed_days : ℕ) (rounds : List (ℕ × Wait)) (q : Queue Text)
      → (cleanup_run sent_days failed_days rounds q).0 ≡ ok tt
  unfolding cleanup_run
  cleanup_run-returns sent_days failed_days =
      run_rounds-returns _ (λ now q. run_cleanup-returns now sent_days failed_days q)

module _ {Text : Type 0} where
  -- The watchdog's task ends with the exception of the first poll that meets one, before the stop.
  pub watchdog_run-ends :
      (rounds : List (Poll × Wait)) (x : Watchdog × Relay Text)
      → (watchdog_run rounds x).0 ≡ first_failed rounds
  unfolding watchdog_run run_rounds poll go_on first_failed ◌>>=◌
  watchdog_run-ends [] x = refl
  watchdog_run-ends ((raised e, wait) ∷ rounds) x = refl
  watchdog_run-ends ((ok (now, reading, answers), timed_out) ∷ rounds) x =
      watchdog_run-ends rounds _
  watchdog_run-ends ((ok (now, reading, answers), stopped) ∷ rounds) x = refl

  -- The gauge updater's task ends when it is stopped.
  pub gauge_run-returns :
      (rounds : List (Unit {0} × Wait)) (s : Relay Text) → (gauge_run rounds s).0 ≡ ok tt
  unfolding gauge_run ◌>>=◌
  gauge_run-returns = run_rounds-returns _ (λ r s. refl)
