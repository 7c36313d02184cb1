-- ===== src/Relay/Reports.antt =====
-- relay/relay.py: what the relay reports of itself, and what the watchdog and the gauge updater
-- report to it. The text of an exception is a parameter.
pub mod Heartbeats
use sms_gateway_v.Base.{ℕ, Option, none, some}
use sms_gateway_v.Exec.{Exception}
use mathlib.Core.Option
use sms_gateway_v.Queue.State.{Queue}
use sms_gateway_v.Metrics.{Metrics, update_gauges}
use sms_gateway_v.Telegram.Message.{Chars}
use sms_gateway_v.Relay.State.{Relay}
use sms_gateway_v.Relay.Watchdog.{Watchdog, Reading, Answers, Health, poll_once}
use sms_gateway_v.Relay.Heartbeat.{RelayState}

module _ {Text : Type 0} where
  -- update_modem_health
  unfoldable pub update_modem_health : Health → Relay Text → Relay Text
  update_modem_health h s = record s {
    modem_state = some h.state;
    modem_signal_percent = h.signal_percent;
    modem_operator = h.operator;
    modem_registration = some h.registration;
  }

  -- update_queue_counts
  unfoldable pub update_queue_counts : ℕ × ℕ → Relay Text → Relay Text
  update_queue_counts (pending, failed) s = record s {
    queue_pending_count = some pending;
    queue_failed_count = some failed;
  }

  -- SmsRelay.state, as far as a heartbeat reads it
  unfoldable pub state : (Exception → Chars) → Relay Text → RelayState
  state text_of s = record {
    started_at = s.started_at;
    last_sms_received_at = s.last_sms_received_at;
    last_error = Option.map text_of s.last_error;
    sms_delete_failures_count = s.sms_delete_failures_count;
    modem_state = s.modem_state;
    modem_signal_percent = s.modem_signal_percent;
    modem_operator = s.modem_operator;
    modem_registration = s.modem_registration;
    queue_pending_count = s.queue_pending_count;
    queue_failed_count = s.queue_failed_count;
  }

  reported_health : Option Health → Relay Text → Relay Text
  unfolding update_modem_health
  reported_health none s = s
  reported_health (some h) s = update_modem_health h s

  reported_counts : Option (ℕ × ℕ) → Relay Text → Relay Text
  unfolding update_queue_counts
  reported_counts none s = s
  reported_counts (some counts) s = update_queue_counts counts s

  -- A poll of the watchdog, with the callback that build_relay gives it.
  unfoldable pub poll_and_report :
      ℕ → Option Reading → Answers → Watchdog → Relay Text → Watchdog × Relay Text
  unfolding reported_health
  poll_and_report now reading answers w s =
      let w' = poll_once now reading answers w in (w', reported_health w'.health s)

  -- A round of the gauge updater, with the callback that build_relay gives it.
  unfoldable pub count_and_report : Relay Text → Relay Text
  unfolding reported_counts
  count_and_report s =
      let (metrics, counts) = update_gauges s.worker.queue s.worker.metrics in
      reported_counts counts (record s { worker = record s.worker { metrics = metrics } })
