-- ===== src/Queue/Mark.antt =====
-- queue/queue.py: what becomes of a claimed item.
pub mod Conserves
pub mod Retries
pub mod Settles
pub mod Returns
use sms_gateway_v.Base.{
  ℕ, ◌+◌, String, Bool, true, false, Option, none, some, is_some, if◌then◌else◌,
}
use sms_gateway_v.Exec.{
  Exec, Exception, Result, item_not_found, file_not_found, pure, raise, gets, catch, ◌>>=◌, ◌>>◌,
}
use sms_gateway_v.Queue.Models.{DateTime, ItemStatus, QueueItem, Codec, Hashing, utc}
use sms_gateway_v.Queue.Directory.{file}
use sms_gateway_v.Queue.Dedup
use sms_gateway_v.Queue.State.{
  SubDir, Queue, atomic_move, save_item, dirs_or_raise, exists, on_dedup,
}
use sms_gateway_v.Queue.Hash.{content_hash_for_item}

-- `except FileNotFoundError: raise ItemNotFound`
as_item_not_found {ℓ} : {S A : Type ℓ} → Exception → Exec S A
as_item_not_found file_not_found = raise item_not_found
as_item_not_found e = raise e

module _ {Text : Type 0} where
  unfoldable pub move_from_processing : String → SubDir → Exec (Queue Text) Unit
  unfolding as_item_not_found
  move_from_processing stem dst = catch (atomic_move stem SubDir.processing dst) as_item_not_found

  unfoldable pub move_back_to_pending : QueueItem → Exec (Queue Text) Unit
  unfolding as_item_not_found
  move_back_to_pending item = do
    dirs_or_raise
    catch (atomic_move item.id SubDir.processing SubDir.pending) as_item_not_found

  -- `if not (self._dirs["processing"] / f"{item.id}.json").exists(): raise ItemNotFound`
  require_processing : String → Exec (Queue Text) Unit
  require_processing stem q =
      if exists SubDir.processing stem q then pure tt q else raise item_not_found q

module _ {Text : Type 0} ⦃hashing : Hashing⦄ where
  set_status : ℕ → QueueItem → ItemStatus → Exec (Queue Text) Unit
  set_status now item st = do
    minutes ← gets (λ q. q.dedup_window_minutes)
    on_dedup (Dedup.update_status now (content_hash_for_item minutes item) st)

  unfoldable pub mark_sent : ℕ → QueueItem → Exec (Queue Text) Unit
  unfolding set_status
  mark_sent now item = do
    dirs_or_raise
    move_from_processing item.id SubDir.sent
    set_status now item ItemStatus.sent

module _ {Text : Type 0} ⦃codec : Codec Text⦄ ⦃hashing : Hashing⦄ where
  unfoldable pub mark_failed : ℕ → QueueItem → Bool → Exec (Queue Text) Unit
  unfolding set_status require_processing
  mark_failed now item permanently = do
    dirs_or_raise
    let updated = record item { permanently_failed = permanently }
    require_processing item.id
    save_item now updated SubDir.processing
    move_from_processing updated.id SubDir.failed
    set_status now item ItemStatus.failed

abbrev pub attempted : ℕ → QueueItem → DateTime → QueueItem
attempted now item next_retry_at = record item {
  attempts = item.attempts + 1;
  last_attempt_at = some (utc now);
  next_retry_at = some next_retry_at;
}

module _ {Text : Type 0} ⦃codec : Codec Text⦄ where
  unfoldable pub update_attempt : ℕ → QueueItem → DateTime → Exec (Queue Text) QueueItem
  unfolding require_processing
  update_attempt now item next_retry_at = do
    dirs_or_raise
    require_processing item.id
    save_item now (attempted now item next_retry_at) SubDir.processing
    pure (attempted now item next_retry_at)
