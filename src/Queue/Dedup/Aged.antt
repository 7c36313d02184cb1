-- ===== src/Queue/Dedup/Aged.antt =====
-- queue/dedup.py: which rows are too old, by the days since their last status.
use sms_gateway_v.Base.{
  ℕ, ◌+◌, ◌*◌, String, ◌≡◌, refl, Bool, false, ◌&&◌, ◌||◌, List, [], ◌∷◌, ltb, contains, ◌==◌,
  if◌then◌else◌, arith, Bool-cases, inl, inr,
}
use sms_gateway_v.Queue.Models.{ItemStatus, status_eq}
use sms_gateway_v.Queue.Dedup.{Row, is_older, cutoff, ids, ids_older, insert_id, without_older}

-- The row has the status, and has had it for more than so many days.
abbrev pub is_too_old : ItemStatus → ℕ → ℕ → Row → Bool
is_too_old st now days r =
    status_eq r.status st && ltb (r.last_status_at + days * 86_400_000_000) now

-- an item has a row
pub has_row : String → List Row → Bool
has_row k [] = false
has_row k (r ∷ rs) = (r.item_id == k) || has_row k rs

-- an item has a row that is too old
pub has_old_row : ItemStatus → ℕ → ℕ → String → List Row → Bool
has_old_row st now days k [] = false
has_old_row st now days k (r ∷ rs) =
    ((r.item_id == k) && is_too_old st now days r) || has_old_row st now days k rs

-- the rows that are not too old
pub young_rows : ItemStatus → ℕ → ℕ → List Row → List Row
young_rows st now days [] = []
young_rows st now days (r ∷ rs) =
    if is_too_old st now days r then young_rows st now days rs else r ∷ young_rows st now days rs

pub before_cutoff : (t now days : ℕ) → ltb t (cutoff now days) ≡ ltb (t + days * 86_400_000_000) now
before_cutoff t now days = ground arith

pub is_older-is_too_old :
    (st : ItemStatus) (now days : ℕ) (r : Row)
    → is_older st (cutoff now days) r ≡ is_too_old st now days r
unfolding is_older
is_older-is_too_old st now days r = rw (before_cutoff r.last_status_at now days) refl

contains-insert_id :
    (a k : String) (xs : List String) → contains (insert_id a xs) k ≡ ((a == k) || contains xs k)
unfolding insert_id
contains-insert_id a k [] = ground arith
contains-insert_id a k (x ∷ xs) = ground (arith, contains-insert_id a k xs)

pub contains-ids : (k : String) (rs : List Row) → contains (ids rs) k ≡ has_row k rs
unfolding ids has_row
contains-ids k [] = refl
contains-ids k (r ∷ rs) = ground (arith, contains-ids k rs)

pub contains-ids_older :
    (st : ItemStatus) (now days : ℕ) (k : String) (rs : List Row)
    → contains (ids_older st (cutoff now days) rs) k ≡ has_old_row st now days k rs
unfolding ids_older has_old_row
contains-ids_older st now days k [] = refl
contains-ids_older st now days k (r ∷ rs) =
    let e = is_older-is_too_old st now days r in
    let rest = contains-ids_older st now days k rs in
    elim (Bool-cases (is_older st (cutoff now days) r)) [
      | inl b ↦
          ground
            (arith, e, rest, contains-insert_id r.item_id k (ids_older st (cutoff now days) rs))
      | inr b ↦ ground (arith, e, rest)
    ]

pub without_older-young :
    (st : ItemStatus) (now days : ℕ) (rs : List Row)
    → without_older st (cutoff now days) rs ≡ young_rows st now days rs
unfolding without_older young_rows
without_older-young st now days [] = refl
without_older-young st now days (r ∷ rs) =
    ground (arith, is_older-is_too_old st now days r, without_older-young st now days rs)
