-- ===== src/Relay/Messages.antt =====
-- relay/relay.py: from an SMS in the modem to an item in the queue.
pub mod Order
pub mod Kept
pub mod Undecoded
pub mod Drained
use Prim.Native.Char.{Char, code}
use sms_gateway_v.Base.{
  ℕ, zero, suc, ◌+◌, ◌/◌, String, Bool, true, false, Option, none, some, List, [], ◌∷◌, contains,
  ◌==◌, not, if◌then◌else◌,
}
use sms_gateway_v.Exec.{
  Exec, Exception, ModemFailure, read_missing, read_skipped, delete_failed, modem, Result, ok,
  raised, pure, raise, gets, modify, catch, ◌>>=◌, ◌>>◌,
}
use sms_gateway_v.Queue.Models.{IncomingSms, QueueItem, Codec, Hashing}
use sms_gateway_v.Queue.Enqueue.{enqueue}
use sms_gateway_v.Worker
use sms_gateway_v.Metrics.{Metrics}
use sms_gateway_v.Relay.State.{Relay, Modem, on_queue, on_worker, on_metrics, answer}
use Order.{sort_messages}

module _ {Text : Type 0} where
  -- _schedule_text_retry
  unfoldable pub schedule_text_retry : String → Exec (Relay Text) Bool
  schedule_text_retry sms_path s =
      if contains s.pending_text_retries sms_path
      then pure false s
      else pure true (record s { pending_text_retries = sms_path ∷ s.pending_text_retries })

  -- _record_sms_delete_failure
  record_sms_delete_failure : ℕ → Exec (Relay Text) Unit
  unfolding on_metrics
  record_sms_delete_failure now = do
    on_metrics (λ m. record m { sms_delete_failures_total = m.sms_delete_failures_total + 1 })
    modify (λ s. record s {
      sms_delete_failures_count = s.sms_delete_failures_count + 1;
      last_delete_failure_at = some now;
    })

  -- `self._modem_client.delete_message`
  delete_message : Modem → String → Exec (Relay Text) Unit
  unfolding answer
  delete_message phone sms_path = do
    answer (phone.delete_message sms_path)
    modify (λ s. record s { deleted = sms_path ∷ s.deleted })

  -- `except MessageDeleteFailed`
  on_delete_failed : ℕ → Bool → Exception → Exec (Relay Text) Unit
  unfolding record_sms_delete_failure
  on_delete_failed now fail_on_delete_error (modem delete_failed text) = do
    record_sms_delete_failure now
    (if fail_on_delete_error then raise (modem delete_failed text) else pure tt)
  on_delete_failed now fail_on_delete_error e = raise e

  count_enqueued : ℕ → Option QueueItem → Exec (Relay Text) Unit
  unfolding on_metrics
  count_enqueued now none =
      on_metrics (λ m. record m { sms_dedup_hits_total = m.sms_dedup_hits_total + 1 })
  count_enqueued now (some item) = do
    on_metrics (λ m. record m {
      sms_received_total = m.sms_received_total + 1;
      last_sms_received_seconds = now;
    })
    modify (λ s. record s { last_sms_received_at = some now })

  -- the part of `_process_sms` below the enqueue
  after_enqueue : ℕ → Modem → String → Bool → Option QueueItem → Exec (Relay Text) Unit
  unfolding count_enqueued delete_message on_delete_failed on_worker
  after_enqueue now phone sms_path fail_on_delete_error item = do
    count_enqueued now item
    on_worker Worker.wakeup
    catch (delete_message phone sms_path) (on_delete_failed now fail_on_delete_error)

-- `except MessageReadMissing … except MessageReadSkipped`: the message is left alone.
is_passed_over : Exception → Bool
is_passed_over (modem read_missing text) = true
is_passed_over (modem read_skipped text) = true
is_passed_over e = false

module _ {Text : Type 0} ⦃codec : Codec Text⦄ ⦃hashing : Hashing⦄ where
  -- _process_sms; the random part of the item's id is an argument.
  unfoldable pub process_sms : ℕ → String → Modem → Bool → IncomingSms → Exec (Relay Text) Unit
  unfolding on_queue after_enqueue
  process_sms now hex phone fail_on_delete_error sms = do
    item ← on_queue (enqueue now hex sms)
    after_enqueue now phone sms.object_path fail_on_delete_error item

  process_read :
      ℕ → String → Modem → Bool → String → Result (Option IncomingSms) → Exec (Relay Text) Unit
  unfolding is_passed_over
  process_read now hex phone fail sms_path (ok none) = do
    scheduled ← schedule_text_retry sms_path
    pure tt
  process_read now hex phone fail sms_path (ok (some sms)) = process_sms now hex phone fail sms
  process_read now hex phone fail sms_path (raised e) =
      if is_passed_over e then pure tt else raise e

  -- _process_sms_path
  unfoldable pub process_sms_path : ℕ → String → Modem → Bool → String → Exec (Relay Text) Unit
  unfolding process_read
  process_sms_path now hex phone fail sms_path =
      process_read now hex phone fail sms_path (phone.read_message sms_path)

  -- _on_new_sms
  unfoldable pub on_new_sms : ℕ → String → Modem → String → Exec (Relay Text) Unit
  on_new_sms now hex phone sms_path =
      catch (process_sms_path now hex phone false sms_path)
        (λ e. modify (λ s. record s { last_error = some e }))

  -- The reads of `_drain_existing_messages`: the decoded messages, in the order of the paths.
  read_one :
      Exec (Relay Text) (List IncomingSms)
      → String
      → Result (Option IncomingSms)
      → Exec (Relay Text) (List IncomingSms)
  unfolding is_passed_over
  read_one rest sms_path (ok none) = do scheduled ← schedule_text_retry sms_path; rest
  read_one rest sms_path (ok (some sms)) = do messages ← rest; pure (sms ∷ messages)
  read_one rest sms_path (raised e) = if is_passed_over e then rest else raise e

  unfoldable pub read_all : Modem → List String → Exec (Relay Text) (List IncomingSms)
  unfolding read_one
  read_all phone [] = pure []
  read_all phone (sms_path ∷ paths) =
      let rest = read_all phone paths in read_one rest sms_path (phone.read_message sms_path)

  -- Each message has a random part of its own.
  pub process_all : ℕ → (IncomingSms → String) → Modem → List IncomingSms → Exec (Relay Text) Unit
  process_all now hex phone [] = pure tt
  process_all now hex phone (sms ∷ messages) = do
    process_sms now (hex sms) phone true sms
    process_all now hex phone messages

  -- _drain_existing_messages
  unfoldable pub drain_existing_messages :
      ℕ → (IncomingSms → String) → Modem → Exec (Relay Text) Unit
  unfolding read_all process_all answer
  drain_existing_messages now hex phone = do
    sms_paths ← answer phone.list_sms_paths
    messages ← read_all phone sms_paths
    process_all now hex phone (sort_messages messages)

  -- One attempt of `_retry_undecoded_sms_text`: whether it was the last.
  retry_read : ℕ → String → Modem → Result (Option IncomingSms) → Exec (Relay Text) Bool
  unfolding is_passed_over
  retry_read now hex phone (ok none) = pure false
  retry_read now hex phone (ok (some sms)) = do process_sms now hex phone false sms; pure true
  retry_read now hex phone (raised e) = if is_passed_over e then pure true else raise e

  -- _delete_undecodable_sms
  give_up : ℕ → Modem → String → Exec (Relay Text) Unit
  unfolding on_metrics delete_message on_delete_failed
  give_up now phone sms_path = do
    on_metrics (λ m. record m { sms_text_undecoded_total = m.sms_text_undecoded_total + 1 })
    catch (delete_message phone sms_path) (on_delete_failed now false)

  -- The attempts that are left, each with the time and the modem that it meets.
  retry_from : String → ℕ × Modem → List (ℕ × Modem) → String → Exec (Relay Text) Unit
  unfolding retry_read give_up
  retry_from hex (now, phone) [] sms_path = give_up now phone sms_path
  retry_from hex last ((now, phone) ∷ attempts) sms_path =
      let rest = retry_from hex (now, phone) attempts sms_path in
      do
        done ← retry_read now hex phone (phone.read_message sms_path)
        (if done then pure tt else rest)

  -- _retry_undecoded_sms_text, with max_attempts times and modems
  unfoldable pub retry_undecoded_sms_text :
      String → ℕ × Modem → List (ℕ × Modem) → String → Exec (Relay Text) Unit
  unfolding retry_from
  retry_undecoded_sms_text = retry_from
