-- ===== src/App/Factory.antt =====
-- relay/factory.py: `build_relay`, with the constructors of the objects that it makes. What is on
-- disk is an argument. The callbacks that it passes on are in the models of the objects that call them.
pub mod Stopped
use sms_gateway_v.Base.{
  ℕ, ◌*◌, String, Bool, true, false, Option, none, some, List, [], ltb, ◌==◌, if◌then◌else◌,
}
use sms_gateway_v.Exec.{Result, ok, raised, value_error, relay_error}
use sms_gateway_v.Queue.Dedup.{Row}
use sms_gateway_v.Queue.State.{Queue, Dirs}
use sms_gateway_v.Telegram.Client
use sms_gateway_v.Telegram.Client.{Client}
use sms_gateway_v.Metrics.{Metrics}
use sms_gateway_v.Worker.{Worker}
use sms_gateway_v.Relay.State.{RelayStatus, Relay}
use sms_gateway_v.Relay.Watchdog.{Watchdog}
use sms_gateway_v.Config.Settings.{Settings}

-- What `build_relay` returns: the gauge updater has only its interval, and the heartbeat scheduler
-- its chat and its interval, if there is one. Intervals are in milliseconds.
pub record Built (Text : Type 0) : Type 0 where
  pub relay : Relay Text
  pub gauge_interval : ℕ
  pub watchdog : Watchdog
  pub watchdog_interval : ℕ
  pub sent_retention_days : ℕ
  pub failed_retention_days : ℕ
  pub cleanup_interval : ℕ
  pub heartbeat : Option (String × ℕ)

-- ModemWatchdog.__init__; the cooldowns are in microseconds
pub new_watchdog : Settings → Metrics → Watchdog
new_watchdog settings metrics = record {
  signal_zero_threshold = settings.modem_watchdog_signal_zero_threshold;
  bad_state_minutes = settings.modem_watchdog_bad_state_minutes;
  enable_cooldown = settings.modem_watchdog_enable_cooldown * 1000;
  enable_frozen_cooldown = settings.modem_watchdog_enable_frozen_cooldown * 1000;
  last_enable_attempt_at = none;
  consecutive_zero_signal_polls = 0;
  bad_state_since = none;
  calls = [];
  health = none;
  metrics = metrics;
}

pub new_heartbeat : Settings → Option (String × ℕ)
new_heartbeat settings =
    let chat_id =
      if settings.heartbeat_telegram_chat_id == ""
      then settings.telegram_chat_id
      else settings.heartbeat_telegram_chat_id in
    if settings.heartbeat_enabled then some (chat_id, settings.heartbeat_interval) else none

module _ {Text : Type 0} where
  -- Queue.__init__
  new_queue : Dirs Text → List Row → ℕ → Result (Queue Text)
  new_queue dirs rows dedup_window_minutes =
      if ltb dedup_window_minutes 1
      then raised value_error
      else ok (record {
        dedup_window_minutes = dedup_window_minutes;
        initialized = false;
        dirs = dirs;
        dedup = record { connected = false; rows = rows };
      })

  -- DeliveryWorker.__init__
  new_worker : Settings → Metrics → Queue Text → Client → Worker Text
  new_worker settings metrics queue telegram = record {
    queue = queue;
    telegram = telegram;
    metrics = metrics;
    telegram_chat_id = settings.telegram_chat_id;
    retry_schedule_seconds = settings.worker_retry_schedule_seconds;
    stop_event = false;
    wakeup_event = false;
    last_telegram_success_at = none;
  }

  -- SmsRelay.__init__
  new_relay : Worker Text → Relay Text
  new_relay worker = record {
    status = RelayStatus.stopped;
    started_at = none;
    last_sms_received_at = none;
    last_error = none;
    sms_delete_failures_count = 0;
    last_delete_failure_at = none;
    pending_text_retries = [];
    worker_task = false;
    worker = worker;
    modem_state = none;
    modem_signal_percent = none;
    modem_operator = none;
    modem_registration = none;
    queue_pending_count = none;
    queue_failed_count = none;
    connected = false;
    deleted = [];
  }

  wired : Settings → Metrics → Queue Text → Client → Built Text
  unfolding new_worker new_relay new_watchdog new_heartbeat
  wired settings metrics queue telegram = record {
    relay = new_relay (new_worker settings metrics queue telegram);
    gauge_interval = settings.queue_gauge_interval;
    watchdog = new_watchdog settings metrics;
    watchdog_interval = settings.modem_watchdog_interval;
    sent_retention_days = settings.queue_sent_retention_days;
    failed_retention_days = settings.queue_failed_retention_days;
    cleanup_interval = settings.cleanup_interval;
    heartbeat = new_heartbeat settings;
  }

  with_client : Settings → Metrics → Queue Text → Result Client → Result (Built Text)
  unfolding wired
  with_client settings metrics queue (raised e) = raised e
  with_client settings metrics queue (ok telegram) = ok (wired settings metrics queue telegram)

  with_queue : Settings → Metrics → Result (Queue Text) → Result (Built Text)
  unfolding with_client
  with_queue settings metrics (raised e) = raised e
  with_queue settings metrics (ok queue) = with_client settings metrics queue (
      Client.init settings.telegram_bot_token settings.telegram_chat_id
        settings.telegram_max_retries)

  -- build_relay
  unfoldable pub build_relay : Dirs Text → List Row → Settings → Metrics → Result (Built Text)
  unfolding with_queue new_queue
  build_relay dirs rows settings metrics =
      if settings.telegram_bot_token == ""
      then raised relay_error
      else if settings.telegram_chat_id == ""
      then raised relay_error
      else with_queue settings metrics (new_queue dirs rows settings.dedup_window_minutes)
