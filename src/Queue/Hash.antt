-- ===== src/Queue/Hash.antt =====
-- The content hash of a message: its number, its text and the time bucket that it falls in.
pub mod Buckets
use Prim.Native.String.{◌++◌ as append}
use sms_gateway_v.Base.{ℕ, ◌*◌, ◌/◌, String, Option, none, some}
use sms_gateway_v.Queue.Models.{DateTime, IncomingSms, QueueItem, Hashing}

abbrev pub or_else : Option DateTime → DateTime → DateTime
or_else none fallback = fallback
or_else (some t) fallback = t

-- `int(timestamp.timestamp()) // window_seconds * window_seconds`
unfoldable pub bucket_seconds : ℕ → DateTime → ℕ
bucket_seconds minutes t =
    let window_seconds = minutes * 60 in t.instant / 1_000_000 / window_seconds * window_seconds

module _ ⦃env : Hashing⦄ where
  -- `f"{sms.number}|{sms.text}|{bucket}"`
  pub hash_payload : ℕ → IncomingSms → DateTime → String
  hash_payload minutes sms t =
      append (append (append (append sms.number "|") sms.text) "|")
        (env.isoformat (bucket_seconds minutes t) t.tzinfo)

  -- Queue._content_hash
  unfoldable pub content_hash : ℕ → IncomingSms → DateTime → String
  unfolding hash_payload bucket_seconds
  content_hash minutes sms fallback_timestamp =
      env.sha256 (hash_payload minutes sms (or_else sms.timestamp fallback_timestamp))

  or_computed : ℕ → QueueItem → Option String → String
  or_computed minutes item none = content_hash minutes item.sms item.first_seen_at
  or_computed minutes item (some h) = h

  unfoldable pub content_hash_for_item : ℕ → QueueItem → String
  unfolding or_computed
  content_hash_for_item minutes item = or_computed minutes item item.content_hash

  unfoldable pub current_content_hash_for_item : ℕ → QueueItem → String
  current_content_hash_for_item minutes item = content_hash minutes item.sms item.first_seen_at

  keep_hash : ℕ → QueueItem → Option String → QueueItem
  keep_hash minutes item (some h) = item
  keep_hash minutes item none = record item {
    content_hash = some (content_hash_for_item minutes item);
  }

  unfoldable pub with_content_hash : ℕ → QueueItem → QueueItem
  unfolding keep_hash
  with_content_hash minutes item = keep_hash minutes item item.content_hash
