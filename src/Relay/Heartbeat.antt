-- ===== src/Relay/Heartbeat.antt =====
-- relay/heartbeat.py: the text of a heartbeat, and sending it. Texts are lists of code points.
pub mod Reasons
use sms_gateway_v.Base.{
  ℕ, suc, ◌-◌, String, Bool, true, false, not, ◌&&◌, ◌||◌, Option, none, some, List, [], ◌∷◌, ◌++◌,
  nat_eq, ltb, length, ◌==◌, if◌then◌else◌,
}
use sms_gateway_v.Base.Decimal.{decimal}
use sms_gateway_v.Exec.{
  Exec, Exception, Result, ok, raised, validation_error, telegram_error, auth_error,
  transport_error, rate_limited,
}
use sms_gateway_v.Duration.{format_duration_since}
use sms_gateway_v.Telegram.Message.{Chars, chars, escape, HtmlParser, TelegramMessage, validate}
use sms_gateway_v.Telegram.Client.{Client, send_message}

-- relay/models.py: RelayState, as far as a heartbeat reads it
pub record RelayState : Type 0 where
  pub started_at : Option ℕ
  pub last_sms_received_at : Option ℕ
  pub last_error : Option Chars
  pub sms_delete_failures_count : ℕ
  pub modem_state : Option String
  pub modem_signal_percent : Option ℕ
  pub modem_operator : Option String
  pub modem_registration : Option String
  pub queue_pending_count : Option ℕ
  pub queue_failed_count : Option ℕ

abbrev pub show : ℕ → Chars
show n = chars (decimal n)

-- `state.modem_state is not None and state.modem_state != "registered"`
pub unregistered : Option String → Option String
unregistered none = none
unregistered (some modem_state) = if modem_state == "registered" then none else some modem_state

modem_reasons : Option String → List Chars
modem_reasons none = []
modem_reasons (some modem_state) =
    (chars "- modem state: " ++ (escape (chars modem_state) ++ chars " (expected registered)")) ∷ []

delete_reasons : ℕ → List Chars
delete_reasons n = if ltb 0 n then (chars "- delete failures: " ++ show n) ∷ [] else []

-- _degradation_reasons
unfoldable pub degradation_reasons : RelayState → List Chars
unfolding unregistered modem_reasons delete_reasons
degradation_reasons state =
    modem_reasons (unregistered state.modem_state) ++ delete_reasons state.sms_delete_failures_count

fragment : ℕ → Option String → Chars
fragment failures (some modem_state) = chars "modem " ++ escape (chars modem_state)
fragment failures none = show failures ++ chars " delete failures"

-- _primary_title_fragment
primary_title_fragment : RelayState → Chars
unfolding fragment unregistered
primary_title_fragment state =
    fragment state.sms_delete_failures_count (unregistered state.modem_state)

-- _format_title
unfoldable pub format_title : RelayState → List Chars → Chars
unfolding primary_title_fragment
format_title state [] = chars "✅ SMS Gateway"
format_title state (reason ∷ extra) =
    chars "🔴 SMS Gateway: "
    ++ (primary_title_fragment state
        ++ (if ltb 0 (length extra) then chars " +" ++ show (length extra) else []))

with_percent : Option ℕ → Chars
with_percent none = []
with_percent (some percent) = chars " · " ++ (show percent ++ chars "%")

with_operator : Option String → Chars
with_operator none = []
with_operator (some name) = if name == "" then [] else chars " · " ++ escape (chars name)

with_registration : Option String → Chars
with_registration none = []
with_registration (some registration) =
    if registration == "" || registration == "unknown"
    then []
    else chars " (" ++ (escape (chars registration) ++ chars ")")

-- _format_modem_line
format_modem_line : RelayState → Option String → Chars
unfolding with_percent with_operator with_registration
format_modem_line state none = chars "Modem: unknown"
format_modem_line state (some modem_state) =
    chars "Modem: "
    ++ (escape (chars modem_state)
        ++ (with_percent state.modem_signal_percent
            ++ (with_operator state.modem_operator ++ with_registration state.modem_registration)))

is_visible : Option ℕ → Bool
is_visible none = false
is_visible (some n) = ltb 0 n

-- _format_queue_count
format_queue_count : Option ℕ → Chars
format_queue_count none = chars "unknown"
format_queue_count (some n) = show n

-- _format_queue_line, as the lines that it adds
unfoldable pub format_queue_line : RelayState → List Chars
unfolding is_visible format_queue_count
format_queue_line state =
    if is_visible state.queue_pending_count || is_visible state.queue_failed_count
    then (chars "Queue: "
        ++ (format_queue_count state.queue_pending_count
            ++ (chars " pending, "
                ++ (format_queue_count state.queue_failed_count ++ chars " failed"))))
      ∷ []
    else []

sms_age : ℕ → Option ℕ → Chars
sms_age now none = chars "SMS never"
sms_age now (some t) = chars "SMS " ++ (format_duration_since now (some t) ++ chars " ago")

uptime : ℕ → Option ℕ → Chars
uptime now none = chars "uptime unknown"
uptime now (some t) = chars "uptime " ++ format_duration_since now (some t)

-- _format_ages_line
format_ages_line : ℕ → RelayState → Chars
unfolding sms_age uptime
format_ages_line now state =
    sms_age now state.last_sms_received_at ++ (chars " · " ++ uptime now state.started_at)

error_lines : Option Chars → List Chars
error_lines none = []
error_lines (some e) = (chars "Error: " ++ escape e) ∷ []

failure_lines : ℕ → List Chars
failure_lines n = if ltb 0 n then (chars "Delete failures: " ++ show n) ∷ [] else []

-- `"\n".join(lines)`
join_lines : List Chars → Chars
join_lines [] = []
join_lines (l ∷ []) = l
join_lines (l ∷ m ∷ ls) = l ++ (chars "\n" ++ join_lines (m ∷ ls))

-- _format_heartbeat_text
unfoldable pub format_heartbeat_text : ℕ → RelayState → List Chars → Chars
unfolding join_lines error_lines failure_lines format_ages_line format_modem_line
format_heartbeat_text now state reasons = join_lines (
    (chars "<b>" ++ (format_title state reasons ++ chars "</b>"))
    ∷ (format_queue_line state
        ++ (failure_lines state.sms_delete_failures_count
            ++ (error_lines state.last_error
                ++ (format_modem_line state state.modem_state ∷ format_ages_line now state ∷ [])))))

-- the message of _send_heartbeat
unfoldable pub heartbeat_message : ℕ → String → RelayState → TelegramMessage
heartbeat_message now chat_id state =
    let reasons = degradation_reasons state in
    record {
      chat_id = chat_id;
      text = format_heartbeat_text now state reasons;
      parse_mode = some "HTML";
      disable_notification = nat_eq (length reasons) 0;
    }

-- `except (TelegramError, ValidationError)`; the subclasses of TelegramError are caught with it.
is_caught : Exception → Bool
is_caught telegram_error = true
is_caught auth_error = true
is_caught transport_error = true
is_caught (rate_limited delay) = true
is_caught validation_error = true
is_caught e = false

swallow : Result (Unit {0}) → Result (Unit {0})
unfolding is_caught
swallow (ok _) = ok tt
swallow (raised e) = if is_caught e then ok tt else raised e

module _ ⦃html : HtmlParser⦄ where
  send_validated : Result TelegramMessage → Client → Result (Unit {0}) × Client
  unfolding swallow
  send_validated (raised e) c = (swallow (raised e), c)
  send_validated (ok m) c = let (r, c') = send_message m c in (swallow r, c')

  -- _send_heartbeat
  unfoldable pub send_heartbeat : ℕ → String → RelayState → Exec Client Unit
  unfolding send_validated
  send_heartbeat now chat_id state = send_validated (validate (heartbeat_message now chat_id state))
