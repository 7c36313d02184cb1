-- ===== src/Telegram/Message.antt =====
-- telegram/models.py. A text is the list of its code points, so that `len` and slices are those of
-- Python. `html.parser` is a parameter.
pub mod Valid
pub mod Strip
use Prim.Native.Char.{code}
use sms_gateway_v.Base.{
  ℕ, zero, suc, ◌+◌, ◌-◌, ◌≡◌, Bool, true, false, ◌&&◌, ◌||◌, String, Option, none, some, List, [],
  ◌∷◌, ◌++◌, ltb, leb, nat_eq, length, ◌==◌, if◌then◌else◌,
}
use sms_gateway_v.Exec.{Exception, Result, ok, raised, validation_error}

abbrev pub Chars : Type 0
Chars = List ℕ

-- The code points of a text.
abbrev pub chars : String → Chars
chars String.[] = []
chars (String.◌∷◌ c s) = code c ∷ chars s

-- `text[:n]`
pub take : ℕ → Chars → Chars
take zero xs = []
take (suc n) [] = []
take (suc n) (x ∷ xs) = x ∷ take n xs

unfoldable pub escape_char : ℕ → Chars
escape_char c =
    if nat_eq c b'&'
    then chars "&amp;"
    else if nat_eq c b'<'
    then chars "&lt;"
    else if nat_eq c b'>'
    then chars "&gt;"
    else if nat_eq c b'"'
    then chars "&quot;"
    else if nat_eq c 39
    then chars "&#x27;"
    else c ∷ []

-- html.escape
unfoldable pub escape : Chars → Chars
unfolding escape_char
escape [] = []
escape (c ∷ cs) = escape_char c ++ escape cs

-- str.isspace of one character, as `strip` uses it
is_space : ℕ → Bool
is_space c =
    (leb 9 c && leb c 13)
    || (leb 28 c && leb c 32)
    || nat_eq c 133
    || nat_eq c 160
    || nat_eq c 5760
    || (leb 8192 c && leb c 8202)
    || nat_eq c 8232
    || nat_eq c 8233
    || nat_eq c 8239
    || nat_eq c 8287
    || nat_eq c 12288

-- `not text or not text.strip()`
pub is_blank : Chars → Bool
unfolding is_space
is_blank [] = true
is_blank (c ∷ cs) = is_space c && is_blank cs

abbrev pub max_telegram_text_length : ℕ
max_telegram_text_length = 4096

abbrev pub truncation_suffix : Chars
truncation_suffix = chars "..."

abbrev pub sms_separator : Chars
sms_separator = chars "\n"

pub record TelegramMessage : Type 0 where
  pub chat_id : String
  pub text : Chars
  pub parse_mode : Option String
  pub disable_notification : Bool

-- `<b>` number `</b>` and a line break, then the text: what `from_sms` writes
abbrev pub bold : Chars → Chars → Chars
bold number text = chars "<b>" ++ (number ++ (chars "</b>\n" ++ text))

-- `_HtmlTextLengthParser`: the length of the data that `HTMLParser` hands over. Tags count for
-- nothing, and an escaped character counts as one.
pub record HtmlParser : Type 0 where
  pub data_length : Chars → ℕ
  pub bold_length :
      (number text : Chars)
      → data_length (bold (escape number) (escape text)) ≡ length number + 1 + length text
  pub bold_length_suffix :
      (number text : Chars)
      → data_length (bold (escape number) (escape text ++ truncation_suffix))
        ≡ length number + 1 + (length text + 3)
  pub bold_length_number :
      (number : Chars)
      → data_length (bold (escape number ++ truncation_suffix) []) ≡ length number + 3 + 1

sms_body_length : Chars → Chars → ℕ
sms_body_length number text = length number + length sms_separator + length text

-- The limits are integers in the code, so the first is tested for its sign.
truncate_sms_body : Chars → Chars → Chars
truncate_sms_body number text =
    let taken = length number + length sms_separator + length truncation_suffix in
    if leb taken max_telegram_text_length
    then bold (escape number)
        (escape (take (max_telegram_text_length - taken) text) ++ truncation_suffix)
    else bold
        (escape (
            take (max_telegram_text_length - length sms_separator - length truncation_suffix)
              number)
          ++ truncation_suffix)
        []

pub sms_body : Chars → Chars → Chars
unfolding sms_body_length truncate_sms_body
sms_body number text =
    if ltb max_telegram_text_length (sms_body_length number text)
    then truncate_sms_body number text
    else bold (escape number) (escape text)

module _ ⦃html : HtmlParser⦄ where
  -- _telegram_text_length
  pub telegram_text_length : Chars → Option String → ℕ
  telegram_text_length text none = length text
  telegram_text_length text (some mode) =
      if mode == "HTML" then html.data_length text else length text

  -- TelegramMessage.validate_text, validate_text_length
  unfoldable pub validate : TelegramMessage → Result TelegramMessage
  unfolding telegram_text_length
  validate m =
      if nat_eq (length m.text) 0
      then raised validation_error
      else if nat_eq (telegram_text_length m.text m.parse_mode) 0
      then raised validation_error
      else if ltb max_telegram_text_length (telegram_text_length m.text m.parse_mode)
      then raised validation_error
      else ok m

  unfoldable pub from_sms : String → Chars → Chars → Result TelegramMessage
  unfolding validate sms_body
  from_sms chat_id number text =
      if is_blank text
      then raised validation_error
      else validate (record {
        chat_id = chat_id;
        text = sms_body number text;
        parse_mode = some "HTML";
        disable_notification = false;
      })
