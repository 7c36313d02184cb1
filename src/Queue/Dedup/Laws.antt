-- ===== src/Queue/Dedup/Laws.antt =====
-- queue/dedup.py: what a lookup by content hash sees of each write, and the primary key.
use sms_gateway_v.Base.{
  ℕ, String, ◌≡◌, refl, Option, none, some, List, [], ◌∷◌, arith, ◌==◌, eq_iff, if◌then◌else◌,
}
use sms_gateway_v.Queue.Models.{ItemStatus}
use sms_gateway_v.Queue.Dedup.{Row, row_of, with_status, without_item, without_older}

abbrev pub at_status : ℕ → ItemStatus → Option Row → Option Row
at_status now st none = none
at_status now st (some r) = some (record r { status = st; last_status_at = now })

pub row_of-with_status :
    (now : ℕ) (h k : String) (st : ItemStatus) (rs : List Row)
    → row_of k (with_status now h st rs)
      ≡ (if h == k then at_status now st (row_of k rs) else row_of k rs)
unfolding row_of with_status
row_of-with_status now h k st [] = ground arith
row_of-with_status now h k st (r ∷ rs) = ground (
  arith,
  row_of-with_status now h k st rs,
  eq_iff r.content_hash h,
  eq_iff r.content_hash k,
  eq_iff h k,
)

-- A lookup returns a row of the hash that it was asked for.
pub content_hash-row_of :
    (h : String) (rs : List Row) {r : Row} → row_of h rs ≡ some r → r.content_hash ≡ h
unfolding row_of
content_hash-row_of h [] e = ground arith
content_hash-row_of h (x ∷ rs) {r} e =
    ground (arith, content_hash-row_of h rs {r = r}, eq_iff x.content_hash h)

-- The primary key: no two rows share a content hash.
abbrev pub IsKeyed : List Row → Type 0
IsKeyed [] = Unit {0}
IsKeyed (r ∷ rs) = (row_of r.content_hash rs ≡ none) × IsKeyed rs

pub with_status-IsKeyed :
    (now : ℕ) (h : String) (st : ItemStatus) (rs : List Row)
    → IsKeyed rs
    → IsKeyed (with_status now h st rs)
unfolding with_status
with_status-IsKeyed now h st [] k = tt
with_status-IsKeyed now h st (r ∷ rs) k =
    ground
      (arith, with_status-IsKeyed now h st rs k.1, row_of-with_status now h r.content_hash st rs)

pub row_of-without_item :
    (i h : String) (rs : List Row) → row_of h rs ≡ none → row_of h (without_item i rs) ≡ none
unfolding row_of without_item
row_of-without_item i h [] e = refl
row_of-without_item i h (r ∷ rs) e = ground (arith, row_of-without_item i h rs)

pub without_item-IsKeyed : (i : String) (rs : List Row) → IsKeyed rs → IsKeyed (without_item i rs)
unfolding without_item
without_item-IsKeyed i [] k = tt
without_item-IsKeyed i (r ∷ rs) k =
    ground (arith, without_item-IsKeyed i rs k.1, row_of-without_item i r.content_hash rs)

pub row_of-without_older :
    (st : ItemStatus) (c : ℕ) (h : String) (rs : List Row)
    → row_of h rs ≡ none
    → row_of h (without_older st c rs) ≡ none
unfolding row_of without_older
row_of-without_older st c h [] e = refl
row_of-without_older st c h (r ∷ rs) e = ground (arith, row_of-without_older st c h rs)

pub without_older-IsKeyed :
    (st : ItemStatus) (c : ℕ) (rs : List Row) → IsKeyed rs → IsKeyed (without_older st c rs)
unfolding without_older
without_older-IsKeyed st c [] k = tt
without_older-IsKeyed st c (r ∷ rs) k =
    ground (arith, without_older-IsKeyed st c rs k.1, row_of-without_older st c r.content_hash rs)
