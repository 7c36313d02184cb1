-- ===== src/Queue/Dedup/Upserts.antt =====
-- queue/dedup.py: what `reconcile_status` leaves in an open store.
use sms_gateway_v.Base.{ℕ, String, ◌≡◌, refl, true, List, is_some, arith, eq_refl, Option-cases}
use sms_gateway_v.Exec.{ok, ◌>>=◌}
use sms_gateway_v.Queue.Models.{ItemStatus}
use sms_gateway_v.Queue.Dedup
use sms_gateway_v.Queue.Dedup.{
  DedupStore, Row, row_of, with_status, status_eq, upsert, connection_or_raise,
}
use sms_gateway_v.Queue.Dedup.Laws.{row_of-with_status}

pub noted : ℕ → String → String → ItemStatus → DedupStore → DedupStore
noted now h item_id st d = record d { rows = upsert now h item_id st (row_of h d.rows) d.rows }

pub reconcile_status-noted :
    (now : ℕ) (h item_id : String) (st : ItemStatus) (d : DedupStore)
    → d.connected ≡ true
    → Dedup.reconcile_status now h item_id st d ≡ (ok tt, noted now h item_id st d)
unfolding noted Dedup.reconcile_status connection_or_raise ◌>>=◌
reconcile_status-noted now h item_id st d c = simp c

upsert-keeps :
    (now : ℕ) (h item_id k : String) (st : ItemStatus) (rs : List Row)
    → is_some (row_of k rs) ≡ true
    → is_some (row_of k (upsert now h item_id st (row_of h rs) rs)) ≡ true
unfolding upsert row_of
upsert-keeps now h item_id k st rs e = ground (
  arith,
  row_of-with_status now h k st rs,
  Option-cases (row_of h rs),
  Option-cases (row_of k rs),
)

upsert-known :
    (now : ℕ) (h item_id : String) (st : ItemStatus) (rs : List Row)
    → is_some (row_of h (upsert now h item_id st (row_of h rs) rs)) ≡ true
unfolding upsert row_of
upsert-known now h item_id st rs =
    ground (arith, row_of-with_status now h h st rs, eq_refl h, Option-cases (row_of h rs))

-- The hashes that were known stay known, and the one written is.
pub noted-keeps :
    (now : ℕ) (h item_id k : String) (st : ItemStatus) (d : DedupStore)
    → is_some (row_of k d.rows) ≡ true
    → is_some (row_of k (noted now h item_id st d).rows) ≡ true
unfolding noted
noted-keeps now h item_id k st d = upsert-keeps now h item_id k st d.rows

pub noted-known :
    (now : ℕ) (h item_id : String) (st : ItemStatus) (d : DedupStore)
    → is_some (row_of h (noted now h item_id st d).rows) ≡ true
unfolding noted
noted-known now h item_id st d = upsert-known now h item_id st d.rows

pub connected-noted :
    (now : ℕ) (h item_id : String) (st : ItemStatus) (d : DedupStore)
    → (noted now h item_id st d).connected ≡ d.connected
unfolding noted
connected-noted now h item_id st d = refl
