-- ===== src/Queue/Models.antt =====
-- The data of a queue item (queue/models.py, modem/models.py) and what the program takes from
-- outside: the JSON codec of pydantic, SHA-256 and the text of a date.
use Prim.Native.String.{◌++◌ as append}
use Prim.Native.Char.{code}
use sms_gateway_v.Base.{
  ℕ, zero, suc, ◌/◌, String, ◌≡◌, Bool, true, false, ◌&&◌, ◌||◌, Option, none, some, leb,
}
use sms_gateway_v.Base.Decimal.{decimal}

-- A point in time, in microseconds since the epoch, and the zone that it is written in.
pub record DateTime : Type 0 where
  pub instant : ℕ
  pub tzinfo : Option String

abbrev pub utc : ℕ → DateTime
utc now = record { instant = now; tzinfo = some "UTC" }

-- modem/models.py
pub record IncomingSms : Type 0 where
  pub object_path : String
  pub number : String
  pub text : String
  pub timestamp : Option DateTime
  pub pdu_type : String

pub data ItemStatus : Type 0 where
  pending processing sent failed : ItemStatus

abbrev pub status_eq : ItemStatus → ItemStatus → Bool
status_eq pending pending = true
status_eq processing processing = true
status_eq sent sent = true
status_eq failed failed = true
status_eq _ _ = false

pub record QueueItem : Type 0 where
  pub id : String
  pub sms : IncomingSms
  pub first_seen_at : DateTime
  pub content_hash : Option String
  pub attempts : ℕ
  pub last_attempt_at : Option DateTime
  pub permanently_failed : Bool
  pub next_retry_at : Option DateTime

is_hex : ℕ → Bool
is_hex c = (leb b'0' c && leb c b'9') || (leb b'a' c && leb c b'f')

-- `re.fullmatch(r"[0-9a-f]{n}", value)`
hex_digits : ℕ → String → Bool
hex_digits zero String.[] = true
hex_digits zero (String.◌∷◌ c s) = false
hex_digits (suc n) String.[] = false
hex_digits (suc n) (String.◌∷◌ c s) = is_hex (code c) && hex_digits n s

unfoldable pub is_digest : String → Bool
unfolding hex_digits is_hex
is_digest value = hex_digits 64 value

-- QueueItem.validate_content_hash
unfoldable pub validate_content_hash : Option String → Bool
validate_content_hash none = true
validate_content_hash (some value) = is_digest value

-- QueueItem.new; the clock and the random part of the id are arguments.
unfoldable pub new : ℕ → String → IncomingSms → QueueItem
new now hex sms = record {
  id = append (append (decimal (now / 1000)) "-") hex;
  sms = sms;
  first_seen_at = utc now;
  content_hash = none;
  attempts = 0;
  last_attempt_at = none;
  permanently_failed = false;
  next_retry_at = none;
}

-- pydantic's codec over the texts of files. It reads back what it wrote, and lets no item with a
-- malformed hash in.
pub record Codec (Text : Type 0) : Type 0 where
  pub to_json : QueueItem → Text
  pub from_json : Text → Option QueueItem
  pub round_trip :
      (i : QueueItem) → validate_content_hash i.content_hash ≡ true → from_json (to_json i) ≡ some i
  pub validated :
      (t : Text) (i : QueueItem)
      → from_json t ≡ some i
      → validate_content_hash i.content_hash ≡ true

-- hashlib.sha256(...).hexdigest() and the text of a date in its zone
pub record Hashing : Type 0 where
  pub sha256 : String → String
  pub isoformat : ℕ → Option String → String
  pub digest : (s : String) → is_digest (sha256 s) ≡ true
