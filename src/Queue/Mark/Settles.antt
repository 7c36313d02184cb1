-- ===== src/Queue/Mark/Settles.antt =====
-- queue/queue.py: what `mark_sent` and `mark_failed` have done when they return, and when they do not.
use sms_gateway_v.Base.{ℕ, ◌≡◌, Bool, true, none, some, is_some, arith, eq_refl}
use sms_gateway_v.Exec.{ok, raised, item_not_found, ◌>>=◌}
use sms_gateway_v.Queue.Models.{validate_content_hash, ItemStatus, QueueItem, Codec, Hashing}
use sms_gateway_v.Queue.Directory.{file, unlink, put, file-unlink}
use sms_gateway_v.Queue.Dedup.{row_of, update_status}
use sms_gateway_v.Queue.Dedup.Laws.{row_of-with_status}
use sms_gateway_v.Queue.State.{
  SubDir, Queue, atomic_move, load_item, save_item, dirs_or_raise, on_dedup,
}
use sms_gateway_v.Queue.Hash.{content_hash_for_item}
use sms_gateway_v.Queue.Claim.Claimed.{status_of}
use sms_gateway_v.Queue.Mark.{
  mark_sent, mark_failed, move_back_to_pending, move_from_processing, set_status,
  require_processing, as_item_not_found,
}

module _ {Text : Type 0} ⦃codec : Codec Text⦄ ⦃hashing : Hashing⦄ where
  -- When `mark_sent` returns, the file of the item that was in processing is in sent, unchanged,
  -- and no longer in processing, and the row of the item's content hash says `sent`.
  pub mark_sent-sent :
      (now : ℕ) (item : QueueItem) (q q' : Queue Text)
      → mark_sent now item q ≡ (ok tt, q')
      → (is_some (file item.id q.dirs.processing) ≡ true)
        × (file item.id q'.dirs.sent ≡ file item.id q.dirs.processing)
        × (file item.id q'.dirs.processing ≡ none)
        × (status_of (row_of (content_hash_for_item q.dedup_window_minutes item) q'.dedup.rows)
            ≡ some ItemStatus.sent)
  unfolding mark_sent set_status move_from_processing atomic_move as_item_not_found on_dedup
      update_status dirs_or_raise file put ◌>>=◌
  mark_sent-sent now item q q' e =
      let h = content_hash_for_item q.dedup_window_minutes item in
      ground (
        arith,
        row_of-with_status now h h ItemStatus.sent q.dedup.rows,
        eq_refl h,
        eq_refl item.id,
        file-unlink item.id item.id q.dirs.processing,
      )

  -- When `mark_failed` returns, the failed directory has the item's file, which reads back as the
  -- item with the given `permanently_failed`; no file of it is in processing, and the row of its
  -- content hash says `failed`. The item's hash is one that the validator lets in.
  pub mark_failed-failed :
      (now : ℕ) (item : QueueItem) (permanently : Bool) (q q' : Queue Text)
      → validate_content_hash item.content_hash ≡ true
      → mark_failed now item permanently q ≡ (ok tt, q')
      → (load_item SubDir.failed item.id q'
          ≡ some (record item { permanently_failed = permanently }))
        × (is_some (file item.id q.dirs.processing) ≡ true)
        × (file item.id q'.dirs.processing ≡ none)
        × (status_of (row_of (content_hash_for_item q.dedup_window_minutes item) q'.dedup.rows)
            ≡ some ItemStatus.failed)
  unfolding mark_failed load_item save_item require_processing set_status move_from_processing
      atomic_move as_item_not_found on_dedup update_status dirs_or_raise file unlink put ◌>>=◌
  mark_failed-failed now item permanently q q' v e =
      let h = content_hash_for_item q.dedup_window_minutes item in
      ground (
        arith,
        row_of-with_status now h h ItemStatus.failed q.dedup.rows,
        eq_refl h,
        eq_refl item.id,
        file-unlink item.id item.id q.dirs.processing,
        file-unlink item.id item.id (unlink item.id q.dirs.processing),
        codec.round_trip (record item { permanently_failed = permanently }) v,
      )

  -- A mark of an item that is not in processing raises ItemNotFound on an open queue, and changes
  -- nothing.
  pub mark-missing :
      (now : ℕ) (item : QueueItem) (permanently : Bool) (q : Queue Text)
      → q.initialized ≡ true
      → file item.id q.dirs.processing ≡ none
      → (mark_sent now item q ≡ (raised item_not_found, q))
        × (mark_failed now item permanently q ≡ (raised item_not_found, q))
        × (move_back_to_pending item q ≡ (raised item_not_found, q))
  unfolding mark_sent mark_failed move_back_to_pending require_processing set_status
      move_from_processing atomic_move as_item_not_found on_dedup update_status dirs_or_raise ◌>>=◌
  mark-missing now item permanently q i n = (ground arith, ground arith, ground arith)
