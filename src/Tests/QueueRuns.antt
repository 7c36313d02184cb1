-- ===== src/Tests/QueueRuns.antt =====
-- Runs of the queue's theorems.
use sms_gateway_v.Base.{
  ℕ, arith, List, String, ◌≡◌, refl, true, false, Option, none, some, [], ◌∷◌, ◌==◌, is_some,
  if◌then◌else◌,
}
use sms_gateway_v.Exec.{Result, ok, raised, item_not_found, ◌>>=◌}
use sms_gateway_v.Exec.Keeps.{Keeps}
use sms_gateway_v.Queue.Models.{QueueItem, ItemStatus, utc, new, is_digest, validate_content_hash}
use sms_gateway_v.Queue.Directory.{file, list_items_sorted, put}
use sms_gateway_v.Queue.Directory.Names.{insert_name}
use sms_gateway_v.Base.Decimal.{decimal}
use sms_gateway_v.Queue.Dedup
use sms_gateway_v.Queue.Dedup.{row_of, cutoff, ids_older, ids, without_older}
use sms_gateway_v.Queue.Dedup.Keys.{DedupCall, records, updates, deletes}
use sms_gateway_v.Queue.State.{
  SubDir, Queue, load_item, dirs_or_raise, on_dedup, atomic_write_json, atomic_move, save_item,
}
use sms_gateway_v.Queue.Hash.{content_hash_for_item, with_content_hash}
use sms_gateway_v.Queue.Hash.Buckets.{IsRepeat}
use sms_gateway_v.Queue.Enqueue.{enqueue, find_pending_duplicate}
use sms_gateway_v.Queue.Enqueue.Once.{enqueue_repeat}
use sms_gateway_v.Queue.Enqueue.Stores.{enqueue_new, IsStored, new_item, new_hash}
use sms_gateway_v.Queue.Claim.{claim_next}
use sms_gateway_v.Queue.Claim.Claimed.{IsClaimed, claim_next-IsClaimed, status_of}
use sms_gateway_v.Queue.Mark.{
  mark_sent, mark_failed, move_back_to_pending, update_attempt, attempted, move_from_processing,
}
use sms_gateway_v.Queue.Mark.Settles.{mark_sent-sent, mark_failed-failed, mark-missing}
use sms_gateway_v.Queue.Mark.Retries.{update_attempt-moved}
use sms_gateway_v.Queue.Recovery.{recover_processing, requeue_failed, initialize}
use sms_gateway_v.Queue.Recovery.Known.{is_known, hash_in}
use sms_gateway_v.Queue.Recovery.Opens.{initialize-known, Left}
use sms_gateway_v.Queue.Recovery.Restores.{recover_processing-IsRestored, first_of}
use sms_gateway_v.Queue.Recovery.Permanent.{requeue_failed-permanent}
use sms_gateway_v.Queue.Dedup.Aged.{young_rows}
use sms_gateway_v.Queue.Cleanup.{cleanup_sent, cleanup_failed}
use sms_gateway_v.Queue.Cleanup.Expires.{cleanup_sent-swept, cleanup_failed-swept, expires}
use sms_gateway_v.Queue.Accounted.{IsAccounted}
use sms_gateway_v.Queue.History.{claims, marks_sent, run, run-IsAccounted}
use sms_gateway_v.Tests.Fixtures.{
  zeros, item_codec, constant_hashing, hello, item, opened, one_pending, one_processing, one_failed,
  one_sent, hopeless,
}

abbrev hello_item : QueueItem
unfolding with_content_hash content_hash_for_item new
hello_item = new_item opened 700 "ab" hello

hello_stored : Result (Option QueueItem) × Queue QueueItem
hello_stored = enqueue 700 "ab" hello opened

hello-IsRepeat : IsRepeat 10 hello hello
hello-IsRepeat = record {
  stamp = utc 600_000_000;
  stamp' = utc 600_000_000;
  stamped = refl;
  stamped' = refl;
  number = refl;
  text = refl;
  zone = refl;
  bucket = refl;
}

hello_is_stored : enqueue 700 "ab" hello opened ≡ (ok (some hello_item), hello_stored.1)
unfolding hello_stored enqueue find_pending_duplicate ◌>>=◌ list_items_sorted file with_content_hash
    content_hash_for_item new row_of dirs_or_raise on_dedup Dedup.is_duplicate atomic_write_json put
    decimal Dedup.record_new
hello_is_stored = refl

enqueue_repeat_example :
    ((enqueue 900 "cd" hello hello_stored.1).0 ≡ ok none)
    × ((enqueue 900 "cd" hello hello_stored.1).1.dirs ≡ hello_stored.1.dirs)
enqueue_repeat_example =
    enqueue_repeat 700 900 "ab" "cd" hello hello opened hello_stored.1 (some hello_item)
      hello_is_stored hello-IsRepeat

enqueue_new_example :
    ((enqueue 700 "ab" hello opened).0 ≡ ok (some (new_item opened 700 "ab" hello)))
    × IsStored 700
        (new_hash opened 700 "ab" hello)
        (new_item opened 700 "ab" hello)
        opened
        (enqueue 700 "ab" hello opened).1
unfolding find_pending_duplicate list_items_sorted row_of
enqueue_new_example = enqueue_new 700 "ab" hello opened refl refl refl refl

claim_next_example : IsClaimed [] item one_pending (claim_next 800 [] one_pending).1
unfolding claim_next ◌>>=◌ list_items_sorted insert_name load_item file row_of content_hash_for_item
    validate_content_hash is_digest dirs_or_raise on_dedup atomic_move Dedup.update_status
claim_next_example =
    claim_next-IsClaimed 800 [] item one_pending (claim_next 800 [] one_pending).1 refl

-- how often a stem has a file: once for the item's, never for another
abbrev one_item : String → ℕ
one_item k = if "a" == k then 1 else 0

run_example :
    Keeps
      (IsAccounted {Text = QueueItem} one_item)
      (run ((800, claims []) ∷ (900, marks_sent item) ∷ []))
run_example = run-IsAccounted one_item ((800, claims []) ∷ (900, marks_sent item) ∷ [])

mark_sent_example :
    (is_some (file "a" one_processing.dirs.processing) ≡ true)
    × (file "a" (mark_sent 900 item one_processing).1.dirs.sent
        ≡ file "a" one_processing.dirs.processing)
    × (file "a" (mark_sent 900 item one_processing).1.dirs.processing ≡ none)
    × (status_of
          (row_of (content_hash_for_item 10 item) (mark_sent 900 item one_processing).1.dedup.rows)
        ≡ some ItemStatus.sent)
unfolding mark_sent ◌>>=◌ file row_of content_hash_for_item dirs_or_raise move_from_processing
    atomic_move on_dedup Dedup.update_status
mark_sent_example =
    mark_sent-sent 900 item one_processing (mark_sent 900 item one_processing).1 refl

mark_failed_example :
    (load_item SubDir.failed "a" (mark_failed 900 item true one_processing).1 ≡ some hopeless)
    × (is_some (file "a" one_processing.dirs.processing) ≡ true)
    × (file "a" (mark_failed 900 item true one_processing).1.dirs.processing ≡ none)
    × (status_of (
          row_of
            (content_hash_for_item 10 item)
            (mark_failed 900 item true one_processing).1.dedup.rows)
        ≡ some ItemStatus.failed)
unfolding mark_failed ◌>>=◌ file row_of content_hash_for_item validate_content_hash is_digest
    dirs_or_raise save_item move_from_processing atomic_move put on_dedup Dedup.update_status
mark_failed_example =
    mark_failed-failed 900 item true one_processing (mark_failed 900 item true one_processing).1
      refl refl

mark_missing_example :
    (mark_sent 900 item opened ≡ (raised item_not_found, opened))
    × (mark_failed 900 item true opened ≡ (raised item_not_found, opened))
    × (move_back_to_pending item opened ≡ (raised item_not_found, opened))
unfolding file
mark_missing_example = mark-missing 900 item true opened refl refl

update_attempt_example :
    (load_item SubDir.pending "a"
        (move_back_to_pending
          (attempted 900 item (utc 950))
          (update_attempt 900 item (utc 950) one_processing).1).1
      ≡ some (record item {
        attempts = 1;
        last_attempt_at = some (utc 900);
        next_retry_at = some (utc 950);
      }))
    × (file "a"
          (move_back_to_pending
            (attempted 900 item (utc 950))
            (update_attempt 900 item (utc 950) one_processing).1).1.dirs.processing
        ≡ none)
unfolding update_attempt move_back_to_pending ◌>>=◌ file validate_content_hash is_digest
    dirs_or_raise save_item atomic_move put
update_attempt_example =
    update_attempt-moved 900 item (attempted 900 item (utc 950)) (utc 950) one_processing
      (update_attempt 900 item (utc 950) one_processing).1
      (move_back_to_pending (attempted 900 item (utc 950))
        (update_attempt 900 item (utc 950) one_processing).1).1
      refl refl refl

recover_example :
    ((recover_processing one_processing).0 ≡ ok 1)
    × ((k : String) → file k (recover_processing one_processing).1.dirs.processing ≡ none)
    × ((k : String)
        → file k (recover_processing one_processing).1.dirs.pending
          ≡ first_of (file k one_processing.dirs.processing) (file k one_processing.dirs.pending))
    × ((recover_processing one_processing).1.dirs.sent ≡ [])
    × ((recover_processing one_processing).1.dirs.failed ≡ [])
    × ((recover_processing one_processing).1.dedup ≡ one_processing.dedup)
unfolding file
recover_example = recover_processing-IsRestored one_processing refl (refl, tt)

requeue_example : load_item SubDir.failed "a" (requeue_failed 900 30 one_failed).1 ≡ some hopeless
unfolding load_item file validate_content_hash is_digest
requeue_example = requeue_failed-permanent "a" hopeless refl 900 30 one_failed refl

-- a day after its last status the sent item goes
abbrev late : ℕ
late = 90_000_000_000

cleanup_sent_example :
    ((k : String)
      → file k (cleanup_sent late 1 one_sent).1.dirs.sent ≡ (
          if expires ItemStatus.sent late 1 k (file k one_sent.dirs.sent) one_sent
          then none
          else file k one_sent.dirs.sent))
    × ((cleanup_sent late 1 one_sent).1.dedup.rows
        ≡ young_rows ItemStatus.sent late 1 one_sent.dedup.rows)
    × ((cleanup_sent late 1 one_sent).1.dirs.pending ≡ [])
    × ((cleanup_sent late 1 one_sent).1.dirs.processing ≡ [])
    × ((cleanup_sent late 1 one_sent).1.dirs.failed ≡ [])
    × ((n : ℕ) × ((cleanup_sent late 1 one_sent).0 ≡ ok n))
cleanup_sent_example = cleanup_sent-swept late 1 one_sent refl refl (omega arith)

cleanup_failed_example :
    ((k : String)
      → file k (cleanup_failed late 1 one_failed).1.dirs.failed ≡ (
          if expires ItemStatus.failed late 1 k (file k one_failed.dirs.failed) one_failed
          then none
          else file k one_failed.dirs.failed))
    × ((cleanup_failed late 1 one_failed).1.dedup.rows
        ≡ young_rows ItemStatus.failed late 1 one_failed.dedup.rows)
    × ((cleanup_failed late 1 one_failed).1.dirs.pending ≡ [])
    × ((cleanup_failed late 1 one_failed).1.dirs.processing ≡ [])
    × ((cleanup_failed late 1 one_failed).1.dirs.sent ≡ [])
    × ((n : ℕ) × ((cleanup_failed late 1 one_failed).0 ≡ ok n))
cleanup_failed_example = cleanup_failed-swept late 1 one_failed refl refl (omega arith)

abbrev dedup_calls : List (ℕ × DedupCall)
dedup_calls =
    (1, records zeros "b")
    ∷ (2, updates zeros ItemStatus.sent)
    ∷ (3, deletes "a")
    ∷ (4, records zeros "c")
    ∷ []

-- a closed queue with a failed message whose row is lost
lost : Queue QueueItem
lost = record one_failed { initialized = false; dedup = record { connected = false; rows = [] } }

lost-hash : hash_in SubDir.failed "a" lost ≡ some zeros
unfolding lost load_item content_hash_for_item file is_digest validate_content_hash
lost-hash = refl

lost-closed : lost.initialized ≡ false
unfolding lost
lost-closed = refl

initialize_example :
    ((initialize 700 lost).0 ≡ ok tt)
    × ((initialize 700 lost).1.initialized ≡ true)
    × ((initialize 700 lost).1.dirs ≡ lost.dirs)
    × ((k h : String) → Left h k lost → is_known h (initialize 700 lost).1 ≡ true)
initialize_example = initialize-known 700 lost lost-closed
