-- ===== src/Queue/Cleanup.antt =====
-- queue/queue.py: `cleanup_sent` and `cleanup_failed`.
pub mod Expires
use sms_gateway_v.Base.{
  ℕ, ◌+◌, String, Bool, not, ◌&&◌, Option, none, some, List, [], ◌∷◌, ltb, contains, is_some,
  if◌then◌else◌,
}
use sms_gateway_v.Exec.{Exec, Exception, Result, pure, raise, gets, modify, ◌>>=◌, ◌>>◌}
use sms_gateway_v.Queue.Models.{ItemStatus}
use sms_gateway_v.Queue.Directory.{File, Directory, file, unlink, list_items_sorted}
use sms_gateway_v.Queue.Dedup
use sms_gateway_v.Queue.Dedup.{cutoff}
use sms_gateway_v.Queue.State.{SubDir, Queue, dir, dirs_or_raise, on_dedup, write_dir}

module _ {Text : Type 0} where
  -- _remove_item_files: the files that are left, and how many went
  pub remove_item_files : List String → Directory Text → ℕ × Directory Text
  remove_item_files [] d = (0, d)
  remove_item_files (item_id ∷ rest) d =
      let there = is_some (file item_id d) in
      let (n, d') = remove_item_files rest (if there then unlink item_id d else d) in
      ((if there then n + 1 else n), d')

  older : ℕ → Option (File Text) → Bool
  older before none = Bool.false
  older before (some f) = ltb f.mtime before

  -- the loop of _remove_unknown_files_older_than, over the listing
  pub remove_unknown_from : List String → ℕ → List String → Directory Text → ℕ × Directory Text
  unfolding older
  remove_unknown_from known before [] d = (0, d)
  remove_unknown_from known before (stem ∷ rest) d =
      let goes = not (contains known stem) && older before (file stem d) in
      let (n, d') = remove_unknown_from known before rest (if goes then unlink stem d else d) in
      ((if goes then n + 1 else n), d')

  -- `cleanup_sent` and `cleanup_failed` differ in the directory and the status alone.
  cleanup : SubDir → ItemStatus → ℕ → ℕ → Exec (Queue Text) ℕ
  unfolding remove_item_files remove_unknown_from
  cleanup s st now max_age_days = do
    dirs_or_raise
    item_ids ← on_dedup (Dedup.item_ids_older_than now st max_age_days)
    known_item_ids ← on_dedup Dedup.item_ids
    removed ← gets (λ q. remove_item_files item_ids (dir s q.dirs))
    modify (write_dir s removed.1)
    unknown ← gets (λ q.
        remove_unknown_from known_item_ids (cutoff now max_age_days)
          (list_items_sorted (dir s q.dirs)) (dir s q.dirs))
    modify (write_dir s unknown.1)
    purged ← on_dedup (Dedup.purge_older_than now st max_age_days)
    pure (removed.0 + unknown.0)

  -- `max_age_days` is a natural number, so `_validate_max_age_days` passes.
  unfoldable pub cleanup_sent : ℕ → ℕ → Exec (Queue Text) ℕ
  unfolding cleanup
  cleanup_sent = cleanup SubDir.sent ItemStatus.sent

  unfoldable pub cleanup_failed : ℕ → ℕ → Exec (Queue Text) ℕ
  unfolding cleanup
  cleanup_failed = cleanup SubDir.failed ItemStatus.failed
