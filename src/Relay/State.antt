-- ===== src/Relay/State.antt =====
-- relay/relay.py: the fields of `SmsRelay`. What the modem answers is an argument of each method.
use sms_gateway_v.Base.{ℕ, String, Bool, Option, List}
use sms_gateway_v.Exec.{Exec, Exception, Result, modify}
use sms_gateway_v.Queue.Models.{IncomingSms}
use sms_gateway_v.Queue.State.{Queue}
use sms_gateway_v.Metrics.{Metrics}
use sms_gateway_v.Worker.{Worker}

pub data RelayStatus : Type 0 where
  stopped starting running stopping : RelayStatus

pub record Relay (Text : Type 0) : Type 0 where
  pub status : RelayStatus
  pub started_at : Option ℕ
  pub last_sms_received_at : Option ℕ
  pub last_error : Option Exception
  pub sms_delete_failures_count : ℕ
  pub last_delete_failure_at : Option ℕ
  -- the keys of _pending_text_retries
  pub pending_text_retries : List String
  -- `self._worker_task is not None`
  pub worker_task : Bool
  -- the worker, with the queue and the metrics that the relay shares with it
  pub worker : Worker Text
  -- what the watchdog and the gauge updater have reported
  pub modem_state : Option String
  pub modem_signal_percent : Option ℕ
  pub modem_operator : Option String
  pub modem_registration : Option String
  pub queue_pending_count : Option ℕ
  pub queue_failed_count : Option ℕ
  -- whether the modem client is connected, and the messages that it has deleted, the last first
  pub connected : Bool
  pub deleted : List String

-- What the modem client would answer: an exception, or a value.
pub record Modem : Type 0 where
  pub connect : Result (Unit {0})
  pub disconnect : Result (Unit {0})
  pub watch_added : Result (Unit {0})
  pub list_sms_paths : Result (List String)
  pub read_message : String → Result (Option IncomingSms)
  pub delete_message : String → Result (Unit {0})

module _ {Text : Type 0} where
  -- a call of the shared queue
  unfoldable pub on_queue : {A : Type 0} → Exec (Queue Text) A → Exec (Relay Text) A
  on_queue m s =
      let (r, q) = m s.worker.queue in (r, record s { worker = record s.worker { queue = q } })

  unfoldable pub on_worker : (Worker Text → Worker Text) → Exec (Relay Text) Unit
  on_worker f = modify (λ s. record s { worker = f s.worker })

  unfoldable pub on_metrics : (Metrics → Metrics) → Exec (Relay Text) Unit
  on_metrics f =
      modify (λ s. record s { worker = record s.worker { metrics = f s.worker.metrics } })

  -- an answer of the modem client that is no state of the model
  unfoldable pub answer : {A : Type 0} → Result A → Exec (Relay Text) A
  answer r s = (r, s)
