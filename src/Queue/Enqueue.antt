-- ===== src/Queue/Enqueue.antt =====
-- queue/queue.py: `Queue.enqueue`.
pub mod Once
pub mod Stores
use sms_gateway_v.Base.{
  ℕ, String, Bool, true, false, ◌||◌, Option, none, some, List, [], ◌∷◌, ◌==◌, if◌then◌else◌,
}
use sms_gateway_v.Exec.{
  Exec, Exception, Result, duplicate_message, queue_corrupted, pure, raise, gets, modify, catch,
  ◌>>=◌, ◌>>◌,
}
use sms_gateway_v.Queue.Models.{IncomingSms, QueueItem, Codec, Hashing, new}
use sms_gateway_v.Queue.Directory.{unlink, list_items_sorted}
use sms_gateway_v.Queue.Dedup
use sms_gateway_v.Queue.State.{
  SubDir, Queue, load_item, atomic_write_json, dirs_or_raise, on_dedup, write_dir,
}
use sms_gateway_v.Queue.Hash.{
  content_hash_for_item, current_content_hash_for_item, with_content_hash,
}

-- `except DuplicateMessage: h`
pub on_duplicate {ℓ} : {S A : Type ℓ} → Exec S A → Exception → Exec S A
on_duplicate h duplicate_message = h
on_duplicate h e = raise e

module _ ⦃hashing : Hashing⦄ where
  -- the test of one file in `_find_pending_duplicate`; `none` skips a corrupted one
  matches : ℕ → String → String → Option QueueItem → Bool
  matches minutes h stem none = false
  matches minutes h stem (some item) =
      if item.id == stem
      then content_hash_for_item minutes item == h
        || current_content_hash_for_item minutes item == h
      else false

module _ {Text : Type 0} ⦃codec : Codec Text⦄ ⦃hashing : Hashing⦄ where
  find_in : String → List String → Queue Text → Option QueueItem
  find_in h [] q = none
  find_in h (stem ∷ rest) q =
      let found = load_item SubDir.pending stem q in
      let later = find_in h rest q in
      if matches q.dedup_window_minutes h stem found then found else later

  -- Queue._find_pending_duplicate
  unfoldable pub find_pending_duplicate : String → Queue Text → Option QueueItem
  unfolding find_in matches
  find_pending_duplicate h q = find_in h (list_items_sorted q.dirs.pending) q

  -- _delete_pending_item
  delete_loaded : String → Option QueueItem → Exec (Queue Text) Unit
  delete_loaded stem none = raise queue_corrupted
  delete_loaded stem (some _) =
      modify (λ q. write_dir SubDir.pending (unlink stem q.dirs.pending) q)

  unfoldable pub delete_pending_item : String → Exec (Queue Text) Unit
  unfolding delete_loaded
  delete_pending_item stem q = delete_loaded stem (load_item SubDir.pending stem q) q

  -- the part of `enqueue` below the scan of the pending directory
  store : ℕ → String → QueueItem → Exec (Queue Text) (Option QueueItem)
  unfolding on_duplicate delete_pending_item
  store now h item = do
    atomic_write_json now item
    catch (do on_dedup (Dedup.record_new now h item.id); pure (some item))
        (on_duplicate (do delete_pending_item item.id; pure none))

  after_scan : ℕ → String → QueueItem → Option QueueItem → Exec (Queue Text) (Option QueueItem)
  unfolding store on_duplicate
  after_scan now h item none = store now h item
  after_scan now h item (some duplicate_item) = do
    minutes ← gets (λ q. q.dedup_window_minutes)
    (if content_hash_for_item minutes duplicate_item == h
        then catch (on_dedup (Dedup.record_new now h duplicate_item.id)) (on_duplicate (pure tt))
        else pure tt)
    pure none

  enqueue_item : ℕ → String → QueueItem → Exec (Queue Text) (Option QueueItem)
  unfolding after_scan
  enqueue_item now h item = do
    dirs_or_raise
    duplicate ← on_dedup (Dedup.is_duplicate h)
    (if duplicate then pure none else do
      duplicate_item ← gets (find_pending_duplicate h)
      after_scan now h item duplicate_item)

  -- The clock and the random part of the id are arguments.
  unfoldable pub enqueue : ℕ → String → IncomingSms → Exec (Queue Text) (Option QueueItem)
  unfolding enqueue_item
  enqueue now hex sms q =
      let item = with_content_hash q.dedup_window_minutes (new now hex sms) in
      enqueue_item now (content_hash_for_item q.dedup_window_minutes item) item q
