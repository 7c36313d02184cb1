-- ===== src/Queue/Mark/Returns.antt =====
-- queue/queue.py: the marks of an item that is claimed do not fail.
use sms_gateway_v.Base.{ℕ, ◌≡◌, Bool, true, is_some, arith, eq_refl}
use sms_gateway_v.Exec.{ok, ◌>>=◌}
use sms_gateway_v.Queue.Models.{DateTime, QueueItem, Codec, Hashing}
use sms_gateway_v.Queue.Directory.{file, put}
use sms_gateway_v.Queue.Dedup.{row_of, update_status}
use sms_gateway_v.Queue.State.{Queue, atomic_move, save_item, dirs_or_raise, on_dedup}
use sms_gateway_v.Queue.Hash.{content_hash_for_item}
use sms_gateway_v.Queue.Mark.{
  mark_sent, mark_failed, move_back_to_pending, update_attempt, attempted, move_from_processing,
  set_status, require_processing, as_item_not_found,
}

module _ {Text : Type 0} ⦃codec : Codec Text⦄ ⦃hashing : Hashing⦄ where
  -- The queue and its store are open, the item's file is in processing, and its hash has a row.
  pub record IsClaim (item : QueueItem) (q : Queue Text) : Type 0 where
    pub initialized : q.initialized ≡ true
    pub connected : q.dedup.connected ≡ true
    pub in_processing : is_some (file item.id q.dirs.processing) ≡ true
    pub row :
        is_some (row_of (content_hash_for_item q.dedup_window_minutes item) q.dedup.rows) ≡ true

  pub mark_sent-returns :
      (now : ℕ) (item : QueueItem) (q : Queue Text)
      → IsClaim item q
      → (mark_sent now item q).0 ≡ ok tt
  unfolding mark_sent set_status move_from_processing atomic_move as_item_not_found on_dedup
      update_status dirs_or_raise ◌>>=◌
  mark_sent-returns now item q c =
      ground (arith, c.initialized, c.connected, c.in_processing, c.row)

  pub mark_failed-returns :
      (now : ℕ) (item : QueueItem) (permanently : Bool) (q : Queue Text)
      → IsClaim item q
      → (mark_failed now item permanently q).0 ≡ ok tt
  unfolding mark_failed save_item require_processing set_status move_from_processing atomic_move
      as_item_not_found on_dedup update_status dirs_or_raise file put ◌>>=◌
  mark_failed-returns now item permanently q c =
      ground (arith, c.initialized, c.connected, c.in_processing, c.row, eq_refl item.id)

  pub retry-returns :
      (now : ℕ) (item : QueueItem) (at : DateTime) (q : Queue Text)
      → IsClaim item q
      → ((update_attempt now item at q).0 ≡ ok (attempted now item at))
        × ((move_back_to_pending (attempted now item at) (update_attempt now item at q).1).0
            ≡ ok tt)
  unfolding update_attempt move_back_to_pending save_item require_processing atomic_move
      as_item_not_found dirs_or_raise file put ◌>>=◌
  retry-returns now item at q c = ground (arith, c.initialized, c.in_processing, eq_refl item.id)
