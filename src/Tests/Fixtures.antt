-- ===== src/Tests/Fixtures.antt =====
-- Concrete stand-ins for what the program takes from outside, and states to run it on.
use sms_gateway_v.Base.{
  String, ◌≡◌, refl, true, false, Option, none, some, [], ◌∷◌, if◌then◌else◌, arith,
}
use sms_gateway_v.Exec.{ok}
use sms_gateway_v.Queue.Models.{
  IncomingSms, QueueItem, Codec, Hashing, utc, validate_content_hash, is_digest,
}
use sms_gateway_v.Queue.Directory.{File}
use sms_gateway_v.Queue.State.{Queue, Dirs}
use sms_gateway_v.Queue.Dedup.{new_row}
use sms_gateway_v.Queue.Models.{ItemStatus}
use sms_gateway_v.Telegram.Client.{Client}
use sms_gateway_v.Metrics.{initial}
use sms_gateway_v.Worker.{Worker}
use sms_gateway_v.Relay.State.{RelayStatus, Relay, Modem}

abbrev pub zeros : String
zeros = "0000000000000000000000000000000000000000000000000000000000000000"

-- A text is the item itself; an item with a malformed hash does not parse.
abbrev pub parse : QueueItem → Option QueueItem
parse i = if validate_content_hash i.content_hash then some i else none

pub parse_valid : (t i : QueueItem) → parse t ≡ some i → validate_content_hash i.content_hash ≡ true
parse_valid t i e = ground arith

instance abbrev pub item_codec : Codec QueueItem
item_codec = record {
  to_json = λ i. i;
  from_json = parse;
  round_trip = λ i v. rw v refl;
  validated = parse_valid;
}

instance abbrev pub constant_hashing : Hashing
unfolding is_digest
constant_hashing = record { sha256 = λ s. zeros; isoformat = λ t z. ""; digest = λ s. refl }

abbrev pub hello : IncomingSms
hello = record {
  object_path = "/SMS/1";
  number = "+100";
  text = "hello";
  timestamp = some (utc 600_000_000);
  pdu_type = "deliver";
}

-- an item that was claimed
abbrev pub item : QueueItem
item = record {
  id = "a";
  sms = hello;
  first_seen_at = utc 600_000_000;
  content_hash = some zeros;
  attempts = 0;
  last_attempt_at = none;
  permanently_failed = false;
  next_retry_at = none;
}

abbrev pub file_of : QueueItem → File QueueItem
file_of i = record { payload = i; mtime = 5 }

abbrev pub no_files : Dirs QueueItem
no_files = record { pending = []; processing = []; sent = []; failed = []; tmp = [] }

abbrev pub opened : Queue QueueItem
opened = record {
  dedup_window_minutes = 10;
  initialized = true;
  dirs = no_files;
  dedup = record { connected = true; rows = [] };
}

abbrev pub with_row : ItemStatus → Queue QueueItem → Queue QueueItem
with_row st q = record q { dedup = record { connected = true; rows = new_row 5 zeros "a" st ∷ [] } }

-- the item is pending, in processing, or failed for good
abbrev pub one_pending : Queue QueueItem
one_pending =
    with_row ItemStatus.pending
      (record opened { dirs = record no_files { pending = ("a", file_of item) ∷ [] } })

abbrev pub one_processing : Queue QueueItem
one_processing =
    with_row ItemStatus.processing
      (record opened { dirs = record no_files { processing = ("a", file_of item) ∷ [] } })

abbrev pub hopeless : QueueItem
hopeless = record item { permanently_failed = true }

abbrev pub one_failed : Queue QueueItem
one_failed =
    with_row ItemStatus.failed
      (record opened { dirs = record no_files { failed = ("a", file_of hopeless) ∷ [] } })

abbrev pub one_sent : Queue QueueItem
one_sent =
    with_row ItemStatus.sent
      (record opened { dirs = record no_files { sent = ("a", file_of item) ∷ [] } })

abbrev pub closed_client : Client
closed_client = record { is_open = false; max_retries = 3; incoming = []; posts = []; sleeps = [] }

-- a worker on a queue, with two retries in its schedule
abbrev pub worker_on : Queue QueueItem → Worker QueueItem
worker_on q = record {
  queue = q;
  telegram = closed_client;
  metrics = initial;
  telegram_chat_id = "chat";
  retry_schedule_seconds = 5 ∷ 60 ∷ [];
  stop_event = false;
  wakeup_event = false;
  last_telegram_success_at = none;
}

-- a relay on a queue, and a modem with one message
abbrev pub relay_on : RelayStatus → Queue QueueItem → Relay QueueItem
relay_on st q = record {
  status = st;
  started_at = none;
  last_sms_received_at = none;
  last_error = none;
  sms_delete_failures_count = 0;
  last_delete_failure_at = none;
  pending_text_retries = [];
  worker_task = false;
  worker = worker_on q;
  modem_state = none;
  modem_signal_percent = none;
  modem_operator = none;
  modem_registration = none;
  queue_pending_count = none;
  queue_failed_count = none;
  connected = false;
  deleted = [];
}

abbrev pub phone : Modem
phone = record {
  connect = ok tt;
  disconnect = ok tt;
  watch_added = ok tt;
  list_sms_paths = ok ("/SMS/1" ∷ []);
  read_message = λ path. ok (some hello);
  delete_message = λ path. ok tt;
}
