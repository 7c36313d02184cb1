-- ===== src/Relay/Reports/Heartbeats.antt =====
-- relay/: the heartbeat tells what the last poll of the watchdog has found.
use sms_gateway_v.Base.{
  ℕ, ◌≡◌, refl, ◌∙◌, String, Bool, true, false, ◌&&◌, Option, none, some, nat_eq, ◌==◌, arith,
}
use sms_gateway_v.Exec.{Exception}
use sms_gateway_v.Telegram.Message.{Chars, chars}
use sms_gateway_v.Relay.State.{Relay}
use sms_gateway_v.Relay.Watchdog.{Watchdog, Reading, Answers}
use sms_gateway_v.Relay.Watchdog.Reported.{health_of, poll_once-health}
use sms_gateway_v.Relay.Heartbeat.{heartbeat_message, format_title, degradation_reasons}
use sms_gateway_v.Relay.Heartbeat.Reasons.{is_healthy, heartbeat_message-silent}
use sms_gateway_v.Relay.Reports.{update_modem_health, reported_health, state, poll_and_report}

-- the modem was read and is registered
pub is_registered : Option Reading → Bool
is_registered none = false
is_registered (some r) = r.modem_state == "registered"

module _ {Text : Type 0} where
  healthy-report :
      (text_of : Exception → Chars) (reading : Option Reading) (s : Relay Text)
      → is_healthy (state text_of (update_modem_health (health_of reading) s))
        ≡ is_registered reading && nat_eq s.sms_delete_failures_count 0
  unfolding is_healthy state update_modem_health is_registered
  healthy-report text_of none s = refl
  healthy-report text_of (some r) s = ground arith

  -- After a poll of the watchdog, whatever the poll does to the modem, the next heartbeat is silent
  -- exactly when the poll could read the modem, found it registered, and no deletion has failed.
  -- Then its title is the plain one.
  pub heartbeat-poll :
      (now t : ℕ) (text_of : Exception → Chars) (chat_id : String) (reading : Option Reading)
      (answers : Answers) (w : Watchdog) (s : Relay Text)
      → ((heartbeat_message t chat_id
            (state text_of (poll_and_report now reading answers w s).1)).disable_notification
          ≡ is_registered reading && nat_eq s.sms_delete_failures_count 0)
        × (is_registered reading && nat_eq s.sms_delete_failures_count 0 ≡ true
            → format_title
                (state text_of (poll_and_report now reading answers w s).1)
                (degradation_reasons (state text_of (poll_and_report now reading answers w s).1))
              ≡ chars "✅ SMS Gateway")
  unfolding poll_and_report reported_health
  heartbeat-poll now t text_of chat_id reading answers w s =
      let health = poll_once-health now reading answers w in
      let reported = update_modem_health (health_of reading) s in
      let silent = heartbeat_message-silent t chat_id (state text_of reported) in
      let healthy = healthy-report text_of reading s in
      rw health (silent.0 ∙ healthy, λ e. silent.1 (healthy ∙ e))
