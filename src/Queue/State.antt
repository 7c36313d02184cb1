-- ===== src/Queue/State.antt =====
-- The queue's state: the five directories of the state tree (queue/paths.py), the dedup store and
-- the fields of `Queue`. Each public method of `Queue` runs under its lock, so it is one step.
use sms_gateway_v.Base.{ℕ, String, Bool, ◌||◌, Option, none, some, is_some, if◌then◌else◌}
use sms_gateway_v.Exec.{Exec, queue_error, file_not_found, pure, raise, modify, ◌>>◌}
use sms_gateway_v.Queue.Models.{QueueItem, Codec}
use sms_gateway_v.Queue.Directory.{File, Directory, file, unlink, put}
use sms_gateway_v.Queue.Dedup.{DedupStore}

-- QUEUE_SUBDIRS
pub data SubDir : Type 0 where
  pending processing sent failed tmp : SubDir

pub record Dirs (Text : Type 0) : Type 0 where
  pub pending : Directory Text
  pub processing : Directory Text
  pub sent : Directory Text
  pub failed : Directory Text
  pub tmp : Directory Text

-- `initialized` is `bool(self._dirs)`; the files are there whether it is set or not.
pub record Queue (Text : Type 0) : Type 0 where
  pub dedup_window_minutes : ℕ
  pub initialized : Bool
  pub dirs : Dirs Text
  pub dedup : DedupStore

module _ {Text : Type 0} where
  abbrev pub dir : SubDir → Dirs Text → Directory Text
  dir SubDir.pending ds = ds.pending
  dir SubDir.processing ds = ds.processing
  dir SubDir.sent ds = ds.sent
  dir SubDir.failed ds = ds.failed
  dir SubDir.tmp ds = ds.tmp

  abbrev pub set_dir : SubDir → Directory Text → Dirs Text → Dirs Text
  set_dir SubDir.pending d ds = record ds { pending = d }
  set_dir SubDir.processing d ds = record ds { processing = d }
  set_dir SubDir.sent d ds = record ds { sent = d }
  set_dir SubDir.failed d ds = record ds { failed = d }
  set_dir SubDir.tmp d ds = record ds { tmp = d }

  abbrev pub write_dir : SubDir → Directory Text → Queue Text → Queue Text
  write_dir s d q = record q { dirs = set_dir s d q.dirs }

  -- `os.replace` of `<stem>.json` from one directory to another
  unfoldable pub replace : String → File Text → SubDir → SubDir → Queue Text → Queue Text
  replace stem f src dst q =
      let q' = write_dir src (unlink stem (dir src q.dirs)) q in
      write_dir dst (put stem f (dir dst q'.dirs)) q'

  unfoldable pub replace_found :
      String → SubDir → SubDir → Option (File Text) → Exec (Queue Text) Unit
  replace_found stem src dst none = raise file_not_found
  replace_found stem src dst (some f) = modify (replace stem f src dst)

  unfoldable pub atomic_move : String → SubDir → SubDir → Exec (Queue Text) Unit
  unfolding replace_found replace
  atomic_move stem src dst q = replace_found stem src dst (file stem (dir src q.dirs)) q

  -- `(self._dirs[s] / f"{stem}.json").exists()`
  abbrev pub exists : SubDir → String → Queue Text → Bool
  exists s stem q = is_some (file stem (dir s q.dirs))

  unfoldable pub queue_file_exists : String → Queue Text → Bool
  queue_file_exists stem q =
      exists SubDir.pending stem q
      || (exists SubDir.processing stem q
          || (exists SubDir.sent stem q
              || (exists SubDir.failed stem q || exists SubDir.tmp stem q)))

  unfoldable pub dirs_or_raise : Exec (Queue Text) Unit
  dirs_or_raise q = if q.initialized then pure tt q else raise queue_error q

-- a call of the dedup store
unfoldable pub on_dedup : {Text A : Type 0} → Exec DedupStore A → Exec (Queue Text) A
on_dedup m q = let (r, d) = m q.dedup in (r, record q { dedup = d })

module _ {Text : Type 0} ⦃env : Codec Text⦄ where
  parsed : Option (File Text) → Option QueueItem
  parsed none = none
  parsed (some f) = env.from_json f.payload

  -- `load_item`: `none` is the `QueueCorrupted` of an unreadable or invalid file.
  unfoldable pub load_item : SubDir → String → Queue Text → Option QueueItem
  unfolding parsed
  load_item s stem q = parsed (file stem (dir s q.dirs))

  abbrev pub written : ℕ → QueueItem → File Text
  written now item = record { payload = env.to_json item; mtime = now }

  -- The hidden temporary file of `save_item` is gone when it returns.
  unfoldable pub save_item : ℕ → QueueItem → SubDir → Exec (Queue Text) Unit
  save_item now item s = modify (λ q. write_dir s (put item.id (written now item) (dir s q.dirs)) q)

  unfoldable pub atomic_write_json : ℕ → QueueItem → Exec (Queue Text) Unit
  unfolding atomic_move
  atomic_write_json now item = do
    modify (λ q. write_dir SubDir.tmp (put item.id (written now item) q.dirs.tmp) q)
    atomic_move item.id SubDir.tmp SubDir.pending
