-- ===== src/Metrics.antt =====
-- metrics/registry.py: the counters and gauges that the components write, and the gauge updater.
-- prometheus_client keeps and prints them. The two times are in microseconds, as all times are, and
-- `modem_state` is the label whose gauge is 1. The histogram of durations is left out.
use sms_gateway_v.Base.{ℕ, ◌+◌, String, Bool, true, false, Option, none, some, length}
use sms_gateway_v.Queue.State.{Queue}

-- the label `reason` of telegram_send_failures_total
pub data Reason : Type 0 where
  rate_limited auth_error transport_error exhausted : Reason

pub record Metrics : Type 0 where
  pub sms_received_total : ℕ
  pub sms_delivered_total : ℕ
  pub sms_failed_total : ℕ
  pub sms_dedup_hits_total : ℕ
  pub sms_text_undecoded_total : ℕ
  pub sms_delete_failures_total : ℕ
  pub queue_pending_count : ℕ
  pub queue_processing_count : ℕ
  pub queue_sent_count : ℕ
  pub queue_failed_count : ℕ
  pub last_sms_received_seconds : ℕ
  pub last_telegram_success_seconds : ℕ
  pub modem_signal_percent : ℕ
  pub modem_state : String
  pub modem_resets_total : ℕ
  pub modem_enables_total : ℕ
  pub telegram_send_success : ℕ
  pub telegram_send_failure : ℕ
  pub telegram_send_failures_total : Reason → ℕ

abbrev pub initial : Metrics
initial = record {
  sms_received_total = 0;
  sms_delivered_total = 0;
  sms_failed_total = 0;
  sms_dedup_hits_total = 0;
  sms_text_undecoded_total = 0;
  sms_delete_failures_total = 0;
  queue_pending_count = 0;
  queue_processing_count = 0;
  queue_sent_count = 0;
  queue_failed_count = 0;
  last_sms_received_seconds = 0;
  last_telegram_success_seconds = 0;
  modem_signal_percent = 0;
  modem_state = "";
  modem_resets_total = 0;
  modem_enables_total = 0;
  telegram_send_success = 0;
  telegram_send_failure = 0;
  telegram_send_failures_total = λ _. 0;
}

reason_eq : Reason → Reason → Bool
reason_eq rate_limited rate_limited = true
reason_eq auth_error auth_error = true
reason_eq transport_error transport_error = true
reason_eq exhausted exhausted = true
reason_eq _ _ = false

-- `counter.labels(reason=reason).inc()`
unfoldable pub inc_reason : Reason → (Reason → ℕ) → Reason → ℕ
unfolding reason_eq
inc_reason r f s = elim (reason_eq r s) [ true ↦ f s + 1 | false ↦ f s ]

-- QueueGaugeUpdater._update_gauges: the counts of `*.json` files, and the pair for the callback.
-- A queue that is not initialized leaves the gauges as they are.
unfoldable pub update_gauges : {Text : Type 0} → Queue Text → Metrics → Metrics × Option (ℕ × ℕ)
update_gauges q m = elim q.initialized [
  | true ↦ (
    record m {
      queue_pending_count = length q.dirs.pending;
      queue_processing_count = length q.dirs.processing;
      queue_sent_count = length q.dirs.sent;
      queue_failed_count = length q.dirs.failed;
    },
    some (length q.dirs.pending, length q.dirs.failed),
  )
  | false ↦ (m, none)
]
