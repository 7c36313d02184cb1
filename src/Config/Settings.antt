-- ===== src/Config/Settings.antt =====
-- config.py: the settings and their bounds. Delays are in milliseconds; the paths and the values
-- that no component of the model reads are left out.
use sms_gateway_v.Base.{
  ℕ, String, Bool, true, false, ◌&&◌, Option, none, some, List, [], ◌∷◌, leb, nat_eq, if◌then◌else◌,
}
use sms_gateway_v.Exec.{Result, ok, raised, validation_error}
use sms_gateway_v.Telegram.Message.{Chars, chars}
use sms_gateway_v.Config.Schedule.{schedule_of}

pub record Settings : Type 0 where
  pub queue_sent_retention_days : ℕ
  pub queue_failed_retention_days : ℕ
  pub dedup_window_minutes : ℕ
  pub telegram_bot_token : String
  pub telegram_chat_id : String
  pub telegram_timeout : ℕ
  pub telegram_max_retries : ℕ
  pub worker_retry_schedule_seconds : List ℕ
  pub metrics_path : String
  pub relay_enabled : Bool
  pub queue_gauge_interval : ℕ
  pub modem_watchdog_interval : ℕ
  pub modem_watchdog_signal_zero_threshold : ℕ
  pub modem_watchdog_bad_state_minutes : ℕ
  pub modem_watchdog_enable_cooldown : ℕ
  pub modem_watchdog_enable_frozen_cooldown : ℕ
  pub modem_sms_text_wait_timeout : ℕ
  pub modem_sms_text_undecoded_retry_max_attempts : ℕ
  pub modem_sms_text_undecoded_retry_delay : ℕ
  pub modem_reset_reappear_timeout : ℕ
  pub cleanup_interval : ℕ
  pub heartbeat_enabled : Bool
  pub heartbeat_interval : ℕ
  pub heartbeat_telegram_chat_id : String

abbrev pub default_settings : Settings
default_settings = record {
  queue_sent_retention_days = 30;
  queue_failed_retention_days = 30;
  dedup_window_minutes = 1;
  telegram_bot_token = "";
  telegram_chat_id = "";
  telegram_timeout = 10_000;
  telegram_max_retries = 3;
  worker_retry_schedule_seconds = 5 ∷ 30 ∷ 300 ∷ 1800 ∷ 7200 ∷ 21600 ∷ 86400 ∷ [];
  metrics_path = "/metrics";
  relay_enabled = false;
  queue_gauge_interval = 30_000;
  modem_watchdog_interval = 60_000;
  modem_watchdog_signal_zero_threshold = 5;
  modem_watchdog_bad_state_minutes = 10;
  modem_watchdog_enable_cooldown = 120_000;
  modem_watchdog_enable_frozen_cooldown = 1_800_000;
  modem_sms_text_wait_timeout = 5_000;
  modem_sms_text_undecoded_retry_max_attempts = 3;
  modem_sms_text_undecoded_retry_delay = 30_000;
  modem_reset_reappear_timeout = 45_000;
  cleanup_interval = 3_600_000;
  heartbeat_enabled = true;
  heartbeat_interval = 86_400_000;
  heartbeat_telegram_chat_id = "";
}

-- `Field(ge=lowest)` and `Field(ge=lowest, le=highest)`
pub at_least : ℕ → ℕ → Bool
at_least lowest n = leb lowest n

pub within : ℕ → ℕ → ℕ → Bool
within lowest highest n = leb lowest n && leb n highest

starts_with_slash : Chars → Bool
starts_with_slash [] = false
starts_with_slash (c ∷ cs) = nat_eq c b'/'

-- validate_metrics_path
pub validate_metrics_path : String → Bool
unfolding starts_with_slash
validate_metrics_path value = starts_with_slash (chars value)

-- the bounds of the fields
pub in_bounds : Settings → Bool
unfolding at_least within validate_metrics_path
in_bounds s =
    at_least 1 s.dedup_window_minutes
    && (at_least 100 s.telegram_timeout
        && (at_least 1 s.telegram_max_retries
            && (at_least 1_000 s.queue_gauge_interval
                && (at_least 10_000 s.modem_watchdog_interval
                    && (at_least 1 s.modem_watchdog_signal_zero_threshold
                        && (at_least 1 s.modem_watchdog_bad_state_minutes
                            && (within 10_000 3_600_000 s.modem_watchdog_enable_cooldown
                                && (within 60_000 86_400_000 s.modem_watchdog_enable_frozen_cooldown
                                    && (within 1 10 s.modem_sms_text_undecoded_retry_max_attempts
                                        && (within 5_000 300_000
                                              s.modem_sms_text_undecoded_retry_delay
                                            && (within 5_000 180_000 s.modem_reset_reappear_timeout
                                                && (at_least 60_000 s.cleanup_interval
                                                    && (at_least 60_000 s.heartbeat_interval
                                                        && validate_metrics_path
                                                            s.metrics_path)))))))))))))

with_schedule : Settings → Option (List ℕ) → Result Settings
with_schedule s none = raised validation_error
with_schedule s (some ns) = ok (record s { worker_retry_schedule_seconds = ns })

scheduled : Settings → Option Chars → Result Settings
unfolding with_schedule
scheduled s none = ok s
scheduled s (some text) = with_schedule s (schedule_of text)

-- `Settings()`: the fields as the environment gives them, the schedule as a text if it is given.
unfoldable pub settings : Option Chars → Settings → Result Settings
unfolding scheduled in_bounds
settings schedule s = if in_bounds s then scheduled s schedule else raised validation_error
