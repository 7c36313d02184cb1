-- ===== src/Queue/Dedup.antt =====
-- queue/dedup.py: the table `seen_messages`, whose primary key is the content hash. Each method
-- that reads the clock takes the time, in microseconds, as its first argument.
pub mod Laws
pub mod Keys
pub mod Aged
pub mod Tables
pub mod Upserts
use Prim.Native.String.{compare}
use text.Mathlib.Text.{is_le}
use sms_gateway_v.Base.{
  ℕ, suc, ◌+◌, ◌-◌, ◌*◌, String, Bool, true, false, not, ◌&&◌, Option, none, some, List, [], ◌∷◌,
  ltb, leb, ◌==◌, is_some, length, if◌then◌else◌,
}
use sms_gateway_v.Exec.{
  Exec, Exception, queue_error, duplicate_message, item_not_found, overflow_error, pure, raise,
  gets, modify, ◌>>=◌, ◌>>◌,
}
use sms_gateway_v.Queue.Models.{ItemStatus, pending, status_eq}

pub record Row : Type 0 where
  pub content_hash : String
  pub item_id : String
  pub first_seen_at : ℕ
  pub status : ItemStatus
  pub last_status_at : ℕ

pub record DedupStore : Type 0 where
  pub connected : Bool
  pub rows : List Row

-- `SELECT … WHERE content_hash = ?`
unfoldable pub row_of : String → List Row → Option Row
row_of h [] = none
row_of h (r ∷ rs) = if r.content_hash == h then some r else row_of h rs

-- `UPDATE … SET status = ?, last_status_at = ? WHERE content_hash = ?`
unfoldable pub with_status : ℕ → String → ItemStatus → List Row → List Row
with_status now h st [] = []
with_status now h st (r ∷ rs) =
    (if r.content_hash == h then record r { status = st; last_status_at = now } else r)
    ∷ with_status now h st rs

-- `DELETE FROM seen_messages WHERE item_id = ?`
unfoldable pub without_item : String → List Row → List Row
without_item i [] = []
without_item i (r ∷ rs) = let rest = without_item i rs in if r.item_id == i then rest else r ∷ rest

-- `status = ? AND last_status_at < ?`
pub is_older : ItemStatus → ℕ → Row → Bool
is_older st cutoff r = status_eq r.status st && ltb r.last_status_at cutoff

unfoldable pub without_older : ItemStatus → ℕ → List Row → List Row
without_older st cutoff [] = []
without_older st cutoff (r ∷ rs) =
    let rest = without_older st cutoff rs in if is_older st cutoff r then rest else r ∷ rest

-- `ORDER BY item_id`
insert_id : String → List String → List String
insert_id a [] = a ∷ []
insert_id a (x ∷ xs) = if is_le (compare a x) then a ∷ x ∷ xs else x ∷ insert_id a xs

pub ids_older : ItemStatus → ℕ → List Row → List String
ids_older st cutoff [] = []
ids_older st cutoff (r ∷ rs) =
    let rest = ids_older st cutoff rs in
    if is_older st cutoff r then insert_id r.item_id rest else rest

unfoldable pub ids : List Row → List String
ids [] = []
ids (r ∷ rs) = r.item_id ∷ ids rs

abbrev pub day : ℕ
day = 86_400_000_000

-- `(datetime.now(UTC) - timedelta(days=max_age_days)).timestamp()`
abbrev pub cutoff : ℕ → ℕ → ℕ
cutoff now max_age_days = now - max_age_days * day

unfoldable pub initialize : Exec DedupStore Unit
initialize d = if d.connected then pure tt d else pure tt (record d { connected = true })

unfoldable pub close : Exec DedupStore Unit
close d = if d.connected then pure tt (record d { connected = false }) else pure tt d

unfoldable pub connection_or_raise : Exec DedupStore Unit
connection_or_raise d = if d.connected then pure tt d else raise queue_error d

set_rows : List Row → Exec DedupStore Unit
set_rows rs = modify (λ d. record d { rows = rs })

unfoldable pub is_duplicate : String → Exec DedupStore Bool
unfolding connection_or_raise
is_duplicate h = do connection_or_raise; gets (λ d. is_some (row_of h d.rows))

abbrev pub new_row : ℕ → String → String → ItemStatus → Row
new_row now h item_id st = record {
  content_hash = h;
  item_id = item_id;
  first_seen_at = now;
  status = st;
  last_status_at = now;
}

insert_row : ℕ → String → String → Option Row → Exec DedupStore Unit
insert_row now h item_id (some _) = raise duplicate_message
insert_row now h item_id none =
    modify (λ d. record d { rows = new_row now h item_id pending ∷ d.rows })

unfoldable pub record_new : ℕ → String → String → Exec DedupStore Unit
unfolding connection_or_raise insert_row
record_new now h item_id = do
  connection_or_raise
  found ← gets (λ d. row_of h d.rows)
  insert_row now h item_id found

unfoldable pub update_status : ℕ → String → ItemStatus → Exec DedupStore Unit
unfolding connection_or_raise
update_status now h st = do
  connection_or_raise
  rowcount ← gets (λ d. row_of h d.rows)
  modify (λ d. record d { rows = with_status now h st d.rows })
  (if is_some rowcount then pure tt else raise item_not_found)

upsert : ℕ → String → String → ItemStatus → Option Row → List Row → List Row
upsert now h item_id st none rs = new_row now h item_id st ∷ rs
upsert now h item_id st (some r) rs = if status_eq r.status st then rs else with_status now h st rs

unfoldable pub reconcile_status : ℕ → String → String → ItemStatus → Exec DedupStore Unit
unfolding connection_or_raise upsert
reconcile_status now h item_id st = do
  connection_or_raise
  modify (λ d. record d { rows = upsert now h item_id st (row_of h d.rows) d.rows })

unfoldable pub delete_by_item_id : String → Exec DedupStore ℕ
unfolding connection_or_raise
delete_by_item_id item_id = do
  connection_or_raise
  before ← gets (λ d. length d.rows)
  modify (λ d. record d { rows = without_item item_id d.rows })
  gets (λ d. before - length d.rows)

-- how long before the epoch `datetime.min` is, in microseconds
abbrev pub min_instant : ℕ
min_instant = 62_135_596_800_000_000

-- The cutoff, unless it is before `datetime.min`.
unfoldable pub cutoff_or_raise : ℕ → ℕ → Exec DedupStore ℕ
cutoff_or_raise now max_age_days =
    if leb (max_age_days * day) (now + min_instant)
    then pure (cutoff now max_age_days)
    else raise overflow_error

unfoldable pub item_ids_older_than : ℕ → ItemStatus → ℕ → Exec DedupStore (List String)
unfolding connection_or_raise cutoff_or_raise
item_ids_older_than now st max_age_days = do
  connection_or_raise
  before ← cutoff_or_raise now max_age_days
  gets (λ d. ids_older st before d.rows)

unfoldable pub item_ids : Exec DedupStore (List String)
unfolding connection_or_raise
item_ids = do connection_or_raise; gets (λ d. ids d.rows)

unfoldable pub purge_older_than : ℕ → ItemStatus → ℕ → Exec DedupStore ℕ
unfolding connection_or_raise cutoff_or_raise
purge_older_than now st max_age_days = do
  connection_or_raise
  before ← cutoff_or_raise now max_age_days
  found ← gets (λ d. length d.rows)
  modify (λ d. record d { rows = without_older st before d.rows })
  gets (λ d. found - length d.rows)
