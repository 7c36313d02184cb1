-- ===== src/Relay/Watchdog.antt =====
-- relay/watchdog.py. A poll takes the time, what the modem client reads, and what its `reset` and
-- `enable` would answer. Times are in microseconds.
pub mod Spacing
pub mod Calls
pub mod Silence
pub mod Reported
use text.Mathlib.Text.{find?}
use sms_gateway_v.Base.{
  ℕ, suc, ◌+◌, ◌-◌, ◌*◌, String, Bool, true, false, ◌||◌, ◌&&◌, not, Option, none, some, List, [],
  ◌∷◌, ltb, leb, nat_eq, contains, is_some, if◌then◌else◌,
}
use sms_gateway_v.Modem.Models.{RegistrationState, unknown, searching, denied, SignalQuality, value}
use sms_gateway_v.Metrics.{Metrics}

-- What the first three calls of a poll read, and the operator name, `none` where that call fails.
pub record Reading : Type 0 where
  pub signal : SignalQuality
  pub registration : RegistrationState
  pub modem_state : String
  pub operator_name : Option String

-- The arguments of the health callback.
pub record Health : Type 0 where
  pub state : String
  pub signal_percent : Option ℕ
  pub operator : Option String
  pub registration : String

pub data Action : Type 0 where
  reset enable : Action

-- `none` is success, a text the message of the ModemError.
pub record Answers : Type 0 where
  pub reset_error : Option String
  pub enable_error : Option String

pub record Watchdog : Type 0 where
  pub signal_zero_threshold : ℕ
  pub bad_state_minutes : ℕ
  pub enable_cooldown : ℕ
  pub enable_frozen_cooldown : ℕ
  pub last_enable_attempt_at : Option ℕ
  pub consecutive_zero_signal_polls : ℕ
  pub bad_state_since : Option ℕ
  -- what the modem client, the callback and the metrics have seen; the last call first
  pub calls : List (ℕ × Action)
  pub health : Option Health
  pub metrics : Metrics

-- _BAD_REGISTRATION_STATES
abbrev pub is_bad : RegistrationState → Bool
is_bad denied = true
is_bad searching = true
is_bad unknown = true
is_bad _ = false

-- _ENABLE_RECOVERABLE_MODEM_STATES
unfoldable pub is_enable_recoverable : String → Bool
is_enable_recoverable = contains ("disabled" ∷ "locked" ∷ "failed" ∷ [])

-- _is_invalid_transition_error
unfoldable pub is_invalid_transition_error : String → Bool
is_invalid_transition_error error = is_some (find? error "Invalid transition")

count_reset : Option String → Metrics → Metrics
count_reset none m = record m { modem_resets_total = m.modem_resets_total + 1 }
count_reset (some _) m = m

-- _try_reset
unfoldable pub try_reset : ℕ → Answers → Watchdog → Watchdog
unfolding count_reset
try_reset now answers w = record w {
  calls = (now, reset) ∷ w.calls;
  metrics = count_reset answers.reset_error w.metrics;
}

-- `self._enable_cooldown_seconds_remaining(now) > 0`
pub is_cooling : ℕ → ℕ → Option ℕ → Bool
is_cooling now cooldown none = false
is_cooling now cooldown (some last) = ltb now (last + cooldown)

-- The outcome of `enable`, after the attempt is noted. _defer_next_enable_attempt
after_enable : ℕ → Option String → Watchdog → Watchdog
after_enable now none w = record w {
  metrics = record w.metrics { modem_enables_total = w.metrics.modem_enables_total + 1 };
}
after_enable now (some error) w =
    if is_invalid_transition_error error
    then record w {
      last_enable_attempt_at = some (now + w.enable_frozen_cooldown - w.enable_cooldown);
    }
    else w

-- _try_enable
unfoldable pub try_enable : ℕ → Answers → Watchdog → Watchdog
unfolding is_cooling after_enable
try_enable now answers w =
    if is_cooling now w.enable_cooldown w.last_enable_attempt_at
    then w
    else after_enable now answers.enable_error
        (record w { last_enable_attempt_at = some now; calls = (now, enable) ∷ w.calls })

-- a stale reading leaves the count, a zero raises it, any other resets it
next_zero_polls : SignalQuality → ℕ → ℕ
next_zero_polls signal n =
    if not signal.recent then n else if nat_eq signal.percent 0 then suc n else 0

next_bad_since : ℕ → Bool → Option ℕ → Option ℕ
next_bad_since now false since = none
next_bad_since now true none = some now
next_bad_since now true (some t) = some t

is_overdue : ℕ → ℕ → Option ℕ → Bool
is_overdue now minutes none = false
is_overdue now minutes (some since) = leb (minutes * 60_000_000) (now - since)

-- the reading goes to the callback, the gauges and the two counters
pub observe : ℕ → Reading → Watchdog → Watchdog
unfolding next_zero_polls next_bad_since
observe now r w = record w {
  health = some (record {
    state = r.modem_state;
    signal_percent = some r.signal.percent;
    operator = r.operator_name;
    registration = value r.registration;
  });
  metrics = record w.metrics {
    modem_signal_percent = r.signal.percent;
    modem_state = value r.registration;
  };
  consecutive_zero_signal_polls = next_zero_polls r.signal w.consecutive_zero_signal_polls;
  bad_state_since = next_bad_since now (is_bad r.registration) w.bad_state_since;
}

pub is_triggered : ℕ → Watchdog → Bool
unfolding is_overdue
is_triggered now w =
    leb w.signal_zero_threshold w.consecutive_zero_signal_polls
    || is_overdue now w.bad_state_minutes w.bad_state_since

recover : ℕ → Reading → Answers → Watchdog → Watchdog
recover now r answers w =
    if is_enable_recoverable r.modem_state
    then try_enable now answers w
    else try_reset now answers w

after_poll : ℕ → Reading → Answers → Watchdog → Watchdog
unfolding is_triggered recover
after_poll now r answers w =
    if is_triggered now w
    then record (recover now r answers w) {
      consecutive_zero_signal_polls = 0;
      bad_state_since = none;
    }
    else w

-- _poll_once; no reading is a ModemError of the first three calls
unfoldable pub poll_once : ℕ → Option Reading → Answers → Watchdog → Watchdog
unfolding observe after_poll
poll_once now none answers w = record w {
  health = some (record {
    state = "unavailable";
    signal_percent = none;
    operator = none;
    registration = "unknown";
  });
}
poll_once now (some r) answers w = after_poll now r answers (observe now r w)
