-- ===== src/Relay/Watchdog/Reported.antt =====
-- relay/watchdog.py: what a poll passes to the health callback.
use sms_gateway_v.Base.{ℕ, ◌≡◌, refl, Option, none, some, arith}
use sms_gateway_v.Modem.Models.{value}
use sms_gateway_v.Relay.Watchdog.{
  Watchdog, Reading, Health, Answers, poll_once, observe, after_poll, recover, try_enable,
  try_reset, after_enable,
}

-- The modem as it was read, or as unavailable.
abbrev pub health_of : Option Reading → Health
health_of none = record {
  state = "unavailable";
  signal_percent = none;
  operator = none;
  registration = "unknown";
}
health_of (some r) = record {
  state = r.modem_state;
  signal_percent = some r.signal.percent;
  operator = r.operator_name;
  registration = value r.registration;
}

pub poll_once-health :
    (now : ℕ) (reading : Option Reading) (answers : Answers) (w : Watchdog)
    → (poll_once now reading answers w).health ≡ some (health_of reading)
unfolding poll_once observe after_poll recover try_enable try_reset after_enable
poll_once-health now none answers w = refl
poll_once-health now (some r) answers w = ground arith
