-- ===== src/Relay/Schedulers.antt =====
-- relay/cleanup_scheduler.py: one pass of the cleanup.
use sms_gateway_v.Base.{ℕ}
use sms_gateway_v.Exec.{Exec, pure, catch, ◌>>=◌}
use sms_gateway_v.Queue.Models.{Codec, Hashing}
use sms_gateway_v.Queue.State.{Queue}
use sms_gateway_v.Queue.Recovery.{requeue_failed}
use sms_gateway_v.Queue.Cleanup.{cleanup_sent, cleanup_failed}

module _ {Text : Type 0} ⦃codec : Codec Text⦄ ⦃hashing : Hashing⦄ where
  -- CleanupScheduler._run_cleanup; every exception is logged and ends the pass.
  unfoldable pub run_cleanup : ℕ → ℕ → ℕ → Exec (Queue Text) Unit
  run_cleanup now sent_retention_days failed_retention_days =
      catch
        (do
          requeued ← requeue_failed now failed_retention_days
          sent_cleaned ← cleanup_sent now sent_retention_days
          failed_cleaned ← cleanup_failed now failed_retention_days
          pure tt)
        (λ e. pure tt)
