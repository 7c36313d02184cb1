-- ===== src/Modem/Timestamps.antt =====
-- modem/client.py: the timestamp of an SMS.
use sms_gateway_v.Base.{
  ℕ, Bool, ◌&&◌, ◌||◌, Option, none, some, [], ◌∷◌, leb, nat_eq, if◌then◌else◌,
}
use mathlib.Core.List.{reverse}
use sms_gateway_v.Queue.Models.{DateTime}
use sms_gateway_v.Telegram.Message.{Chars}

-- `datetime.fromisoformat`; `none` is its `ValueError`.
pub record IsoFormat : Type 0 where
  pub fromisoformat : Chars → Option DateTime

unfoldable pub is_sign : ℕ → Bool
is_sign c = nat_eq c b'+' || nat_eq c b'-'

unfoldable pub is_digit : ℕ → Bool
is_digit c = leb b'0' c && leb c b'9'

-- The text from its end: `+HHMM` gets a colon.
colon_from_end : Chars → Chars
unfolding is_sign is_digit
colon_from_end (m ∷ n ∷ h ∷ i ∷ sign ∷ rest) =
    if is_sign sign && (is_digit i && (is_digit h && (is_digit n && is_digit m)))
    then m ∷ n ∷ b':' ∷ h ∷ i ∷ sign ∷ rest
    else m ∷ n ∷ h ∷ i ∷ sign ∷ rest
colon_from_end shorter = shorter

-- _normalize_timestamp_offset
unfoldable pub normalize_timestamp_offset : Chars → Chars
unfolding colon_from_end
normalize_timestamp_offset value = reverse (colon_from_end (reverse value))

-- `value.replace("Z", "+00:00")`
unfoldable pub replace_z : Chars → Chars
replace_z [] = []
replace_z (c ∷ cs) =
    if nat_eq c b'Z'
    then b'+' ∷ b'0' ∷ b'0' ∷ b':' ∷ b'0' ∷ b'0' ∷ replace_z cs
    else c ∷ replace_z cs

module _ ⦃iso : IsoFormat⦄ where
  -- _parse_timestamp
  unfoldable pub parse_timestamp : Option Chars → Option DateTime
  unfolding replace_z
  parse_timestamp none = none
  parse_timestamp (some []) = none
  parse_timestamp (some (c ∷ cs)) =
      iso.fromisoformat (normalize_timestamp_offset (replace_z (c ∷ cs)))
