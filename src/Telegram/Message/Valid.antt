-- ===== src/Telegram/Message/Valid.antt =====
-- telegram/models.py: an SMS always fits.
use sms_gateway_v.Base.{
  ℕ, zero, suc, ◌-◌, ◌≤◌, ◌≡◌, false, String, some, [], ◌∷◌, arith, length, min, if◌then◌else◌,
}
use sms_gateway_v.Exec.{ok, raised, validation_error}
use sms_gateway_v.Telegram.Message.{
  Chars, HtmlParser, take, is_blank, sms_body, from_sms, max_telegram_text_length,
}

length-take : (n : ℕ) (xs : Chars) → length (take n xs) ≡ min n (length xs)
unfolding take
length-take zero xs = omega arith
length-take (suc n) [] = omega arith
length-take (suc n) (x ∷ xs) = omega (arith, length-take n xs)

sms_body_nonempty : (number text : Chars) → 1 ≤ length (sms_body number text)
unfolding sms_body
sms_body_nonempty number text = ground arith

module _ ⦃html : HtmlParser⦄ where
  -- The text of an SMS has at least the separator and at most 4096 characters for Telegram.
  sms_body_length_bounds :
      (number text : Chars)
      → (1 ≤ html.data_length (sms_body number text))
        × (html.data_length (sms_body number text) ≤ max_telegram_text_length)
  unfolding sms_body
  sms_body_length_bounds number text = ground (
    arith,
    html.bold_length number text,
    html.bold_length_suffix number (take (4092 - length number) text),
    html.bold_length_number (take 4092 number),
    length-take 4092 number,
    length-take (4092 - length number) text,
  )

  -- Building a message from an SMS fails exactly on a blank text: however long the number and the
  -- text are, and whatever they hold, the message passes Telegram's limit, where the parser counts
  -- the gateway's own markup as its laws say.
  pub from_sms_total :
      (chat_id : String) (number text : Chars)
      → from_sms chat_id number text ≡ (
          if is_blank text
          then raised validation_error
          else ok (record {
            chat_id = chat_id;
            text = sms_body number text;
            parse_mode = some "HTML";
            disable_notification = false;
          }))
  unfolding from_sms
  from_sms_total chat_id number text =
      ground (arith, sms_body_length_bounds number text, sms_body_nonempty number text)
