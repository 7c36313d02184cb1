-- ===== src/Queue/Dedup/Tables.antt =====
-- queue/dedup.py: the store is a map from content hashes to rows.
use sms_gateway_v.Base.{
  ℕ, ◌+◌, ◌*◌, leb, String, ◌≡◌, Bool, true, false, Option, none, some, List, [], ◌∷◌, ◌==◌,
  if◌then◌else◌,
}
use sms_gateway_v.Exec.{
  Result, ok, raised, queue_error, duplicate_message, item_not_found, overflow_error,
}
use sms_gateway_v.Queue.Models.{ItemStatus, pending, status_eq}
use sms_gateway_v.Queue.Dedup
use sms_gateway_v.Queue.Dedup.{DedupStore, Row, row_of}
use sms_gateway_v.Queue.Dedup.Aged.{is_too_old}
use sms_gateway_v.Queue.Dedup.Keys.{
  DedupCall, opens, closes, records, updates, reconciles, deletes, purges, dedup_call,
}

-- The abstract store: a connection, and a row or none for each content hash.
pub record Table : Type 0 where
  pub is_open : Bool
  pub row : String → Option Row

pub view : DedupStore → Table
view d = record { is_open = d.connected; row = λ h. row_of h d.rows }

-- a map, changed at one hash
abbrev pub at : String → Option Row → (String → Option Row) → String → Option Row
at h new row k = if h == k then new else row k

-- a row with another status, since now
abbrev pub moved : ℕ → ItemStatus → Row → Row
moved now st r = record r { status = st; last_status_at = now }

abbrev pub first : ℕ → String → String → ItemStatus → Row
first now h item_id st = record {
  content_hash = h;
  item_id = item_id;
  first_seen_at = now;
  status = st;
  last_status_at = now;
}

-- a row, unless it satisfies a test
abbrev pub unless : (Row → Bool) → Option Row → Option Row
unless p none = none
unless p (some r) = if p r then none else some r

-- What a call does to an open store: a hash that has a row is not recorded again, and only a hash
-- that has one gets another status; a reconciliation does either. A purge that reaches back before
-- datetime.min raises.
abbrev pub table_write :
    ℕ → DedupCall → (String → Option Row) → Result (Unit {0}) × (String → Option Row)
table_write now opens row = (ok tt, row)
table_write now closes row = (ok tt, row)
table_write now (records h item_id) row = elim (row h) [
  | none ↦ (ok tt, at h (some (first now h item_id pending)) row)
  | some r ↦ (raised duplicate_message, row)
]
table_write now (updates h st) row = elim (row h) [
  | none ↦ (raised item_not_found, row)
  | some r ↦ (ok tt, at h (some (moved now st r)) row)
]
table_write now (reconciles h item_id st) row = elim (row h) [
  | none ↦ (ok tt, at h (some (first now h item_id st)) row)
  | some r ↦ (ok tt, if status_eq r.status st then row else at h (some (moved now st r)) row)
]
table_write now (deletes item_id) row = (ok tt, λ k. unless (λ r. r.item_id == item_id) (row k))
table_write now (purges st days) row =
    if leb (days * 86_400_000_000) (now + 62_135_596_800_000_000)
    then (ok tt, λ k. unless (is_too_old st now days) (row k))
    else (raised overflow_error, row)

-- A closed store can be opened and closed, and raises otherwise.
abbrev pub table_call : ℕ → DedupCall → Table → Result (Unit {0}) × Table
table_call now opens t = (ok tt, record t { is_open = true })
table_call now closes t = (ok tt, record t { is_open = false })
table_call now c t =
    let (r, row) = table_write now c t.row in
    if t.is_open then (r, record { is_open = true; row = row }) else (raised queue_error, t)

pub table_run : List (ℕ × DedupCall) → Table → List (Result (Unit {0})) × Table
table_run [] t = ([], t)
table_run ((now, c) ∷ cs) t =
    let (r, t') = table_call now c t in let (rs, t'') = table_run cs t' in (r ∷ rs, t'')

-- the rows of a list as a map
abbrev map_of : List Row → String → Option Row
map_of rs h = row_of h rs

abbrev with_rows : Bool → (String → Option Row) → Table
with_rows b row = record { is_open = b; row = row }

-- A call of the store is the call of its view.
abbrev Refines : ℕ → DedupCall → DedupStore → Type 0
Refines now c d =
    ((dedup_call now c d).0 ≡ (table_call now c (view d)).0)
    × (view (dedup_call now c d).1 ≡ (table_call now c (view d)).1)

-- the store with a connection or none
abbrev store_of : Bool → List Row → DedupStore
store_of b rs = record { connected = b; rows = rs }
