-- ===== src/Tests/TelegramRuns.antt =====
-- Runs of the Telegram client's theorems.
use sms_gateway_v.Base.{
  ℕ, ◌≡◌, ◌≤◌, ◌<◌, arith, refl, true, false, none, some, [], ◌∷◌, if◌then◌else◌,
}
use sms_gateway_v.Exec.{ok, raised, validation_error, overflow_error}
use sms_gateway_v.Telegram.Message.{chars, is_blank, sms_body, from_sms, TelegramMessage}
use sms_gateway_v.Telegram.Message.Valid.{from_sms_total}
use sms_gateway_v.Telegram.Client.{
  Client, unreachable, response, object, unusable, milliseconds, retry_after, retry_delay,
  send_message,
}
use sms_gateway_v.Telegram.Client.Retries.{Ran, send_message-Ran}
use sms_gateway_v.Telegram.Client.Backoff.{retry_delay-bounds}
use sms_gateway_v.Tests.Html.{scanner}

greeting : TelegramMessage
greeting = record {
  chat_id = "chat";
  text = chars "hello";
  parse_mode = none;
  disable_notification = false;
}

-- a client that meets a network failure, and then a reply that accepts the message
abbrev flaky : Client
flaky = record {
  is_open = true;
  max_retries = 3;
  incoming = unreachable ∷ response 200 (object true unusable) ∷ [];
  posts = [];
  sleeps = [];
}

send_message_example : Ran greeting 2 1 flaky.incoming flaky (send_message greeting flaky)
send_message_example = send_message-Ran 2 greeting flaky refl refl (omega arith)

from_sms_example : from_sms "chat" (chars "+100") (chars "a<b") ≡ (
    if is_blank (chars "a<b")
    then raised validation_error
    else ok (record {
      chat_id = "chat";
      text = sms_body (chars "+100") (chars "a<b");
      parse_mode = some "HTML";
      disable_notification = false;
    }))
from_sms_example = from_sms_total "chat" (chars "+100") (chars "a<b")

retry_delay_example :
    (3 ≤ 1024
      → (d : ℕ) × (retry_delay 3 ≡ ok d)
        × (1000 ≤ d)
        × (d ≤ 30_000)
        × ((e : ℕ) → retry_delay 4 ≡ ok e → d ≤ e))
    × (1024 < 3 → retry_delay 3 ≡ raised overflow_error)
    × (1 ≤ retry_after (object false (milliseconds 0)))
retry_delay_example = retry_delay-bounds 3 (object false (milliseconds 0)) (omega (arith))
