-- ===== src/Queue/Enqueue/Stores.antt =====
-- A new message is stored: its file, its row, and nothing else.
use sms_gateway_v.Base.{ℕ, String, ◌≡◌, refl, ◌≢◌, ◌∷◌, true, none, some, arith, eq_iff, eq_refl}
use sms_gateway_v.Exec.{ok, ◌>>=◌}
use sms_gateway_v.Queue.Models.{
  IncomingSms, ItemStatus, QueueItem, Codec, Hashing, new, validate_content_hash,
}
use sms_gateway_v.Queue.Directory.{file, unlink, put, file-put, directory_laws}
use sms_gateway_v.Queue.Dedup
use sms_gateway_v.Queue.Dedup.{row_of, new_row, record_new}
use sms_gateway_v.Queue.State.{
  SubDir, Queue, load_item, written, atomic_write_json, dirs_or_raise, on_dedup,
}
use sms_gateway_v.Queue.Hash.{content_hash_for_item, with_content_hash}
use sms_gateway_v.Queue.Hash.Buckets.{content_hash_valid}
use sms_gateway_v.Queue.Enqueue.{find_pending_duplicate, enqueue_item, enqueue}

module _ {Text : Type 0} ⦃codec : Codec Text⦄ ⦃hashing : Hashing⦄ where
  -- The queue after the item was stored.
  stored : ℕ → String → QueueItem → Queue Text → Queue Text
  stored now h item q = record q {
    dirs = record q.dirs {
      pending = put item.id (written now item) q.dirs.pending;
      tmp = unlink item.id (put item.id (written now item) q.dirs.tmp);
    };
    dedup = record q.dedup { rows = new_row now h item.id ItemStatus.pending ∷ q.dedup.rows };
  }

  write_new :
      (now : ℕ) (item : QueueItem) (q : Queue Text)
      → atomic_write_json now item q ≡ (
        ok tt,
        record q {
          dirs = record q.dirs {
            pending = put item.id (written now item) q.dirs.pending;
            tmp = unlink item.id (put item.id (written now item) q.dirs.tmp);
          };
        },
      )
  unfolding atomic_write_json ◌>>=◌
  write_new now item q =
      ground (arith, file-put item.id item.id (written now item) q.dirs.tmp, eq_refl item.id)

  enqueue_item-stored :
      (now : ℕ) (h : String) (item : QueueItem) (q : Queue Text)
      → q.initialized ≡ true
      → q.dedup.connected ≡ true
      → row_of h q.dedup.rows ≡ none
      → find_pending_duplicate h q ≡ none
      → enqueue_item now h item q ≡ (ok (some item), stored now h item q)
  unfolding enqueue_item stored on_dedup dirs_or_raise Dedup.is_duplicate record_new ◌>>=◌
  enqueue_item-stored now h item q i c r p = ground (arith, write_new now item q)

  pub record IsStored (now : ℕ) (h : String) (item : QueueItem) (q q' : Queue Text) : Type 0 where
    pub loads : load_item SubDir.pending item.id q' ≡ some item
    pub row : row_of h q'.dedup.rows ≡ some (new_row now h item.id ItemStatus.pending)
    pub other_files : (k : String) → k ≢ item.id → file k q'.dirs.pending ≡ file k q.dirs.pending
    pub other_rows : (k : String) → k ≢ h → row_of k q'.dedup.rows ≡ row_of k q.dedup.rows
    pub processing : q'.dirs.processing ≡ q.dirs.processing
    pub sent : q'.dirs.sent ≡ q.dirs.sent
    pub failed : q'.dirs.failed ≡ q.dirs.failed
    pub tmp : file item.id q'.dirs.tmp ≡ none
    pub other_tmp : (k : String) → k ≢ item.id → file k q'.dirs.tmp ≡ file k q.dirs.tmp

  stored-IsStored :
      (now : ℕ) (h : String) (item : QueueItem) (q : Queue Text)
      → validate_content_hash item.content_hash ≡ true
      → IsStored now h item q (stored now h item q)
  unfolding stored load_item row_of
  stored-IsStored now h item q v = record {
    loads = simp directory_laws (codec.round_trip item v);
    row = simp eq_refl;
    other_files = λ k n. simp file-put (ground (arith, eq_iff item.id k));
    other_rows = λ k n. ground (arith, eq_iff h k);
    processing = refl;
    sent = refl;
    failed = refl;
    tmp = simp directory_laws;
    other_tmp = λ k n. simp directory_laws (ground (arith, eq_iff item.id k));
  }

  enqueue_item-IsStored :
      (now : ℕ) (h : String) (item : QueueItem) (q : Queue Text)
      → validate_content_hash item.content_hash ≡ true
      → q.initialized ≡ true
      → q.dedup.connected ≡ true
      → row_of h q.dedup.rows ≡ none
      → find_pending_duplicate h q ≡ none
      → ((enqueue_item now h item q).0 ≡ ok (some item))
        × IsStored now h item q (enqueue_item now h item q).1
  enqueue_item-IsStored now h item q v i c r p =
      rw (enqueue_item-stored now h item q i c r p) (refl, stored-IsStored now h item q v)

  -- The item that `enqueue` makes of a message, and its hash.
  abbrev pub new_item : Queue Text → ℕ → String → IncomingSms → QueueItem
  new_item q now hex sms = with_content_hash q.dedup_window_minutes (new now hex sms)

  abbrev pub new_hash : Queue Text → ℕ → String → IncomingSms → String
  new_hash q now hex sms = content_hash_for_item q.dedup_window_minutes (new_item q now hex sms)

  -- In an open queue, a message whose hash has no row and no pending item is stored: `enqueue`
  -- returns its item, the pending file of that id loads as the item, the hash has a row with the
  -- id and the status pending, and every other pending file, every other row and the files of
  -- processing, sent and failed are as before; tmp has no file of the id and its others as before.
  pub enqueue_new :
      (now : ℕ) (hex : String) (sms : IncomingSms) (q : Queue Text)
      → q.initialized ≡ true
      → q.dedup.connected ≡ true
      → row_of (new_hash q now hex sms) q.dedup.rows ≡ none
      → find_pending_duplicate (new_hash q now hex sms) q ≡ none
      → ((enqueue now hex sms q).0 ≡ ok (some (new_item q now hex sms)))
        × IsStored now (new_hash q now hex sms) (new_item q now hex sms) q (enqueue now hex sms q).1
  unfolding enqueue
  enqueue_new now hex sms q i c r p =
      enqueue_item-IsStored now (new_hash q now hex sms) (new_item q now hex sms) q
        (content_hash_valid q.dedup_window_minutes now hex sms) i c r p
