-- ===== src/Queue/Claim.antt =====
-- queue/queue.py: `Queue.claim_next`.
pub mod Conserves
pub mod Claimed
pub mod Fuelled
use sms_gateway_v.Base.{
  ℕ, ◌+◌, String, Bool, Option, none, some, List, [], ◌∷◌, ◌==◌, contains, if◌then◌else◌,
}
use sms_gateway_v.Exec.{
  Exec, Exception, Result, item_not_found, pure, raise, gets, catch, ◌>>=◌, ◌>>◌,
}
use sms_gateway_v.Queue.Models.{ItemStatus, QueueItem, Codec, Hashing}
use sms_gateway_v.Queue.Directory.{list_items_sorted}
use sms_gateway_v.Queue.Dedup
use sms_gateway_v.Queue.State.{
  SubDir, Queue, load_item, atomic_move, dirs_or_raise, queue_file_exists, on_dedup,
}
use sms_gateway_v.Queue.Hash.{content_hash_for_item}

-- `except ItemNotFound: h`
pub on_missing {ℓ} : {S A : Type ℓ} → Exec S A → Exception → Exec S A
on_missing h item_not_found = h
on_missing h e = raise e

module _ {Text : Type 0} where
  -- a file that cannot be read: `except QueueCorrupted`
  quarantine : String → Exec (Queue Text) Unit
  quarantine stem = do
    atomic_move stem SubDir.pending SubDir.failed
    removed ← on_dedup (Dedup.delete_by_item_id stem)
    pure tt

  -- a file whose item goes by another id
  quarantine_mismatch : String → QueueItem → Exec (Queue Text) Unit
  quarantine_mismatch stem item = do
    atomic_move stem SubDir.pending SubDir.failed
    removed ← on_dedup (Dedup.delete_by_item_id stem)
    there ← gets (queue_file_exists item.id)
    (if there then pure tt else do more ← on_dedup (Dedup.delete_by_item_id item.id); pure tt)

module _ {Text : Type 0} ⦃codec : Codec Text⦄ ⦃hashing : Hashing⦄ where
  mark_processing : ℕ → String → QueueItem → Exec (Queue Text) Unit
  unfolding on_missing
  mark_processing now h item = catch (on_dedup (Dedup.update_status now h ItemStatus.processing)) (
      on_missing (do
        on_dedup (Dedup.record_new now h item.id)
        on_dedup (Dedup.update_status now h ItemStatus.processing)))

  claim : ℕ → String → QueueItem → Exec (Queue Text) (Option QueueItem)
  unfolding mark_processing
  claim now stem item = do
    atomic_move stem SubDir.pending SubDir.processing
    minutes ← gets (λ q. q.dedup_window_minutes)
    mark_processing now (content_hash_for_item minutes item) item
    pure (some item)

  -- One round: `next` is the rest of the loop.
  claim_round :
      ℕ
      → String
      → Exec (Queue Text) (Option QueueItem)
      → Option QueueItem
      → Exec (Queue Text) (Option QueueItem)
  unfolding claim quarantine quarantine_mismatch
  claim_round now stem next none = do quarantine stem; next
  claim_round now stem next (some item) =
      if item.id == stem then claim now stem item else (do quarantine_mismatch stem item; next)

  claim_from : ℕ → List String → List String → Exec (Queue Text) (Option QueueItem)
  unfolding claim_round
  claim_from now skipped [] = pure none
  claim_from now skipped (stem ∷ rest) =
      let next = claim_from now skipped rest in
      if contains skipped stem
      then next
      else (do loaded ← gets (load_item SubDir.pending stem); claim_round now stem next loaded)

  unfoldable pub claim_next : ℕ → List String → Exec (Queue Text) (Option QueueItem)
  unfolding claim_from
  claim_next now skip_item_ids = do
    dirs_or_raise
    pending_paths ← gets (λ q. list_items_sorted q.dirs.pending)
    claim_from now skip_item_ids pending_paths
