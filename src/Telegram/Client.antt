-- ===== src/Telegram/Client.antt =====
-- telegram/client.py. What the network answers is a list, one entry for each post; where the list
-- ends, the network is gone. Delays are in milliseconds.
pub mod Retries
pub mod Backoff
pub mod Answers
use sms_gateway_v.Base.{
  ℕ, zero, suc, ◌+◌, ◌-◌, ◌*◌, ◌^◌, String, Bool, true, false, Option, none, some, List, [], ◌∷◌,
  ◌++◌, ltb, leb, nat_eq, min, if◌then◌else◌,
}
use sms_gateway_v.Exec.{
  Exec, Exception, Result, telegram_error, auth_error, transport_error, rate_limited, value_error,
  overflow_error, ok, raised, pure, raise, gets, modify, ◌>>=◌, ◌>>◌,
}
use sms_gateway_v.Telegram.Message.{Chars, TelegramMessage}

-- `parameters.retry_after` of a JSON body
pub data RetryAfter : Type 0 where
  -- absent, no number, not finite, or not positive
  unusable : RetryAfter
  milliseconds : ℕ → RetryAfter

-- `_response_json`: an object, or `None` for anything else
pub data Body : Type 0 where
  not_an_object : Body
  object : Bool → RetryAfter → Body

pub data Reply : Type 0 where
  -- httpx.TransportError
  unreachable : Reply
  response : ℕ → Body → Reply

-- the payload of a post
pub record Post : Type 0 where
  pub chat_id : String
  pub text : Chars
  pub parse_mode : Option String
  pub disable_notification : Option Bool

pub record Client : Type 0 where
  pub is_open : Bool
  pub max_retries : ℕ
  -- the network and the clock, as the client meets them
  pub incoming : List Reply
  pub posts : List Post
  pub sleeps : List ℕ

-- TelegramClient.__init__, as far as it checks
unfoldable pub init : String → String → ℕ → Result Client
init bot_token chat_id max_retries =
    if is_empty bot_token
    then raised value_error
    else if is_empty chat_id
    then raised value_error
    else if ltb max_retries 1
    then raised value_error
    else ok (record {
      is_open = false;
      max_retries = max_retries;
      incoming = [];
      posts = [];
      sleeps = [];
    })
  where
    is_empty : String → Bool
    is_empty String.[] = true
    is_empty (String.◌∷◌ c s) = false

-- _retry_after; delays are whole milliseconds
unfoldable pub retry_after : Body → ℕ
retry_after not_an_object = 1000
retry_after (object is_ok unusable) = 1000
retry_after (object is_ok (milliseconds ms)) = if ltb 0 ms then ms else 1000

-- _retry_delay: `min(2.0 ** (attempt - 1), MAX_RETRY_DELAY_SECONDS)`; attempts count from one
-- The float power overflows at an exponent of 1024.
unfoldable pub retry_delay : ℕ → Result ℕ
retry_delay attempt =
    if leb 1024 (attempt - 1)
    then raised overflow_error
    else ok (min (1000 * 2 ^ (attempt - 1)) 30_000)

ok_body : Body → Result (Unit {0})
ok_body not_an_object = raised transport_error
ok_body (object true r) = ok tt
ok_body (object false r) = raised telegram_error

-- _handle_response
unfoldable pub handle_response : ℕ → Body → Result (Unit {0})
unfolding ok_body
handle_response status_code body =
    if nat_eq status_code 200
    then ok_body body
    else if nat_eq status_code 401
    then raised auth_error
    else if nat_eq status_code 429
    then raised (rate_limited (retry_after body))
    else if leb 500 status_code
    then raised transport_error
    else raised telegram_error

pub received : Reply → Result (Unit {0})
received unreachable = raised transport_error
received (response status_code body) = handle_response status_code body

pub next_reply : List Reply → Reply
next_reply [] = unreachable
next_reply (r ∷ rs) = r

pub later_replies : List Reply → List Reply
later_replies [] = []
later_replies (r ∷ rs) = rs

flag : Bool → Option Bool
flag true = some true
flag false = none

pub post_of : TelegramMessage → Post
unfolding flag
post_of m = record {
  chat_id = m.chat_id;
  text = m.text;
  parse_mode = m.parse_mode;
  disable_notification = flag m.disable_notification;
}

-- `client.post(...)` and what `_handle_response` makes of the reply. An httpx.TransportError is
-- turned into a TelegramTransportError with the same handling.
post : TelegramMessage → Exec Client Unit
unfolding received next_reply later_replies post_of
post m c = (
  received (next_reply c.incoming),
  record c { incoming = later_replies c.incoming; posts = c.posts ++ post_of m ∷ [] },
)

sleep : ℕ → Exec Client Unit
sleep ms = modify (λ c. record c { sleeps = c.sleeps ++ ms ∷ [] })

-- _retry_or_raise
retry_or_raise : Exception → ℕ → ℕ → Exec Client Unit
unfolding sleep
retry_or_raise error attempt delay c =
    if leb c.max_retries attempt then raise error c else sleep delay c

-- `delay_seconds=_retry_delay(attempt)` is evaluated before the call.
retry_after_delay : ℕ → Result ℕ → Exec Client Unit
unfolding retry_or_raise
retry_after_delay attempt (raised e) = raise e
retry_after_delay attempt (ok delay) = retry_or_raise transport_error attempt delay

-- The `except` clauses of `send_message`; what returns goes round the loop again.
on_failure : ℕ → Exception → Exec Client Unit
unfolding retry_or_raise retry_after_delay retry_delay
on_failure attempt (rate_limited delay) = retry_or_raise (rate_limited delay) attempt delay
on_failure attempt transport_error = retry_after_delay attempt (retry_delay attempt)
on_failure attempt e = raise e

-- What one post comes to, `else: return` included; `rest` is the rest of the loop.
settle : ℕ → Exec Client Unit → Result (Unit {0}) → Exec Client Unit
unfolding on_failure
settle attempt rest (ok _) = pure tt
settle attempt rest (raised e) = do on_failure attempt e; rest

-- `for attempt in range(attempt, max_retries + 1)`, with the rounds that are left
send_from : ℕ → ℕ → TelegramMessage → Exec Client Unit
unfolding post settle
send_from zero attempt m c = pure tt c
send_from (suc left) attempt m c =
    let rest = send_from left (suc attempt) m in let (r, c') = post m c in settle attempt rest r c'

client_or_raise : Exec Client Unit
client_or_raise c = if c.is_open then pure tt c else raise transport_error c

unfoldable pub send_message : TelegramMessage → Exec Client Unit
unfolding send_from client_or_raise
send_message m = do client_or_raise; rounds ← gets (λ c. c.max_retries); send_from rounds 1 m
