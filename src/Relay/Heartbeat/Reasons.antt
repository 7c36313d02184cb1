-- ===== src/Relay/Heartbeat/Reasons.antt =====
-- relay/heartbeat.py: when a heartbeat is silent.
use sms_gateway_v.Base.{
  ℕ, ◌≡◌, String, Bool, true, false, not, ◌&&◌, Option, none, some, nat_eq, ◌==◌, arith,
  Option-cases, inl, inr,
}
use sms_gateway_v.Telegram.Message.{chars}
use sms_gateway_v.Relay.Heartbeat.{
  RelayState, unregistered, degradation_reasons, modem_reasons, delete_reasons, format_title,
  heartbeat_message,
}

-- A relay in order: the modem is registered, or not known yet, and no deletion has failed.
unfoldable pub is_healthy : RelayState → Bool
is_healthy state = not (has state.modem_state) && nat_eq state.sms_delete_failures_count 0
  where
    has : Option String → Bool
    has none = false
    has (some modem_state) = not (modem_state == "registered")

-- A heartbeat is silent exactly when the relay is healthy: the modem's state is registered or
-- unknown and no deletion has failed. Then its title is the plain one.
pub heartbeat_message-silent :
    (now : ℕ) (chat_id : String) (state : RelayState)
    → ((heartbeat_message now chat_id state).disable_notification ≡ is_healthy state)
      × (is_healthy state ≡ true
          → format_title state (degradation_reasons state) ≡ chars "✅ SMS Gateway")
unfolding heartbeat_message degradation_reasons is_healthy unregistered modem_reasons delete_reasons
    format_title
heartbeat_message-silent now chat_id state = elim (Option-cases state.modem_state) [
  | inl e ↦ (ground arith, ground arith)
  | inr (m, e) ↦ (ground arith, ground arith)
]
