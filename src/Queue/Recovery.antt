-- ===== src/Queue/Recovery.antt =====
-- queue/queue.py: the loops over a whole directory, `recover_processing` and `requeue_failed`, and
-- the opening and closing of the queue.
pub mod Conserves
pub mod Known
pub mod Startup
pub mod Opens
pub mod Permanent
pub mod Restores
use sms_gateway_v.Base.{
  ◌*◌, ℕ, suc, ◌+◌, String, Bool, true, false, Option, none, some, List, [], ◌∷◌, leb, ◌==◌,
  if◌then◌else◌,
}
use sms_gateway_v.Exec.{
  overflow_error, Exec, Exception, Result, ok, raised, pure, raise, gets, modify, catch, ◌>>=◌,
  ◌>>◌,
}
use sms_gateway_v.Queue.Models.{ItemStatus, QueueItem, Codec, Hashing}
use sms_gateway_v.Queue.Directory.{list_items_sorted}
use sms_gateway_v.Queue.Dedup
use sms_gateway_v.Queue.Dedup.{cutoff, day, min_instant}
use sms_gateway_v.Queue.State.{SubDir, Queue, dir, load_item, atomic_move, dirs_or_raise, on_dedup}
use sms_gateway_v.Queue.Hash.{content_hash_for_item}

module _ {Text : Type 0} where
  recover_from : List String → ℕ → Exec (Queue Text) ℕ
  recover_from [] count = pure count
  recover_from (stem ∷ rest) count = do
    atomic_move stem SubDir.processing SubDir.pending
    recover_from rest (suc count)

  unfoldable pub recover_processing : Exec (Queue Text) ℕ
  unfolding recover_from
  recover_processing = do
    dirs_or_raise
    processing_paths ← gets (λ q. list_items_sorted q.dirs.processing)
    recover_from processing_paths 0

  unfoldable pub close : Exec (Queue Text) Unit
  close = do on_dedup Dedup.close; modify (λ q. record q { initialized = false })

module _ {Text : Type 0} ⦃codec : Codec Text⦄ ⦃hashing : Hashing⦄ where
  requeue : ℕ → String → QueueItem → Exec (Queue Text) Unit
  requeue now stem item = do
    atomic_move stem SubDir.failed SubDir.pending
    minutes ← gets (λ q. q.dedup_window_minutes)
    on_dedup (Dedup.update_status now (content_hash_for_item minutes item) ItemStatus.pending)

  -- One file: whether it was put back.
  requeue_one : ℕ → ℕ → String → Option QueueItem → Exec (Queue Text) ℕ
  unfolding requeue
  requeue_one now since stem none = pure 0
  requeue_one now since stem (some item) =
      if item.id == stem
      then (if item.permanently_failed
          then pure 0
          else if leb since item.first_seen_at.instant
          then (do requeue now stem item; pure 1)
          else pure 0)
      else pure 0

  requeue_from : ℕ → ℕ → List String → ℕ → Exec (Queue Text) ℕ
  unfolding requeue_one
  requeue_from now since [] count = pure count
  requeue_from now since (stem ∷ rest) count = do
    loaded ← gets (load_item SubDir.failed stem)
    n ← requeue_one now since stem loaded
    requeue_from now since rest (count + n)

  unfoldable pub requeue_failed : ℕ → ℕ → Exec (Queue Text) ℕ
  unfolding requeue_from
  requeue_failed now max_age_days =
      if leb (max_age_days * day) (now + min_instant)
      then (do
        dirs_or_raise
        failed_paths ← gets (λ q. list_items_sorted q.dirs.failed)
        requeue_from now (cutoff now max_age_days) failed_paths 0)
      else raise overflow_error

  reconcile_one : ℕ → String → ItemStatus → Option QueueItem → Exec (Queue Text) ℕ
  reconcile_one now stem st none = pure 0
  reconcile_one now stem st (some item) =
      if item.id == stem
      then (do
        minutes ← gets (λ q. q.dedup_window_minutes)
        on_dedup (Dedup.reconcile_status now (content_hash_for_item minutes item) item.id st)
        pure 1)
      else pure 0

  reconcile_from : ℕ → SubDir → ItemStatus → List String → ℕ → Exec (Queue Text) ℕ
  unfolding reconcile_one
  reconcile_from now s st [] count = pure count
  reconcile_from now s st (stem ∷ rest) count = do
    loaded ← gets (load_item s stem)
    n ← reconcile_one now stem st loaded
    reconcile_from now s st rest (count + n)

  -- Queue._reconcile_status_dir
  unfoldable pub reconcile_status_dir : ℕ → SubDir → ItemStatus → Exec (Queue Text) ℕ
  unfolding reconcile_from
  reconcile_status_dir now s st = do
    paths ← gets (λ q. list_items_sorted (dir s q.dirs))
    reconcile_from now s st paths 0

  -- Queue._reconcile_startup_statuses
  unfoldable pub reconcile_startup_statuses : ℕ → Exec (Queue Text) Unit
  reconcile_startup_statuses now = do
    pending_count ← reconcile_status_dir now SubDir.pending ItemStatus.pending
    sent_count ← reconcile_status_dir now SubDir.sent ItemStatus.sent
    failed_count ← reconcile_status_dir now SubDir.failed ItemStatus.failed
    pure tt

  -- The directories are made if they are missing, which the model's always are there.
  unfoldable pub initialize : ℕ → Exec (Queue Text) Unit
  initialize now = do
    initialized ← gets (λ q. q.initialized)
    (if initialized then pure tt else do
      on_dedup Dedup.initialize
      reconcile_startup_statuses now
      modify (λ q. record q { initialized = true }))
