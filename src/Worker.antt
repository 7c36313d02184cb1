-- ===== src/Worker.antt =====
-- worker/worker.py: the delivery worker, over the queue, the Telegram client and the metrics.
-- One pass takes the time at which it runs.
pub mod Verdict
pub mod Returns
pub mod Terminates
use sms_gateway_v.Base.{
  ℕ, zero, suc, ◌+◌, ◌*◌, ◌/◌, max, String, Bool, true, false, not, ◌||◌, Option, none, some, List,
  [], ◌∷◌, leb, length, get_elem?, if◌then◌else◌,
}
use sms_gateway_v.Exec.{
  Exec, Exception, validation_error, auth_error, transport_error, rate_limited, telegram_error,
  overflow_error, unexpected, out_of_fuel, Result, ok, raised, pure, raise, gets, modify, catch,
  ◌>>=◌, ◌>>◌,
}
use sms_gateway_v.Queue.Models.{DateTime, QueueItem, Codec, Hashing, utc}
use sms_gateway_v.Queue.State.{Queue}
use sms_gateway_v.Queue.Claim.{claim_next}
use sms_gateway_v.Queue.Mark.{mark_sent, mark_failed, move_back_to_pending, update_attempt}
use sms_gateway_v.Telegram.Message.{HtmlParser, TelegramMessage, chars, from_sms}
use sms_gateway_v.Telegram.Client
use sms_gateway_v.Telegram.Client.{Client}
use sms_gateway_v.Metrics.{Metrics, Reason, inc_reason}

pub record Worker (Text : Type 0) : Type 0 where
  pub queue : Queue Text
  pub telegram : Client
  pub metrics : Metrics
  pub telegram_chat_id : String
  pub retry_schedule_seconds : List ℕ
  pub stop_event : Bool
  pub wakeup_event : Bool
  -- what telegram_success_callback last recorded
  pub last_telegram_success_at : Option ℕ

module _ {Text : Type 0} where
  pub on_queue : {A : Type 0} → Exec (Queue Text) A → Exec (Worker Text) A
  on_queue m w = let (r, q) = m w.queue in (r, record w { queue = q })

  pub on_telegram : {A : Type 0} → Exec Client A → Exec (Worker Text) A
  on_telegram m w = let (r, c) = m w.telegram in (r, record w { telegram = c })

  pub on_metrics : (Metrics → Metrics) → Exec (Worker Text) Unit
  on_metrics f = modify (λ w. record w { metrics = f w.metrics })

-- `item.next_retry_at is None or now >= item.next_retry_at`
pub is_due : ℕ → Option DateTime → Bool
is_due now none = true
is_due now (some t) = leb t.instant now

abbrev pub count_failure : Reason → Metrics → Metrics
count_failure reason m = record m {
  telegram_send_failure = m.telegram_send_failure + 1;
  telegram_send_failures_total = inc_reason reason m.telegram_send_failures_total;
}

abbrev pub count_failed : Metrics → Metrics
count_failed m = record m { sms_failed_total = m.sms_failed_total + 1 }

-- The delay before the next attempt, in milliseconds.
pub delay_ms : ℕ → Option ℕ → ℕ
delay_ms scheduled none = scheduled * 1000
delay_ms scheduled (some retry_after) = max (scheduled * 1000) retry_after

-- `datetime.max`, in microseconds
abbrev pub max_instant : ℕ
max_instant = 253_402_300_799_999_999

module _ {Text : Type 0} ⦃codec : Codec Text⦄ ⦃hashing : Hashing⦄ where
  -- The `while True` of `_process_one_pending_item`: `rest` is the next round.
  take_or_skip :
      ℕ
      → List String
      → (List String → Exec (Worker Text) (Option QueueItem))
      → Option QueueItem
      → Exec (Worker Text) (Option QueueItem)
  unfolding on_queue is_due
  take_or_skip now skipped rest none = pure none
  take_or_skip now skipped rest (some item) =
      if is_due now item.next_retry_at
      then pure (some item)
      else (do on_queue (move_back_to_pending item); rest (item.id ∷ skipped))

  pub next_due : ℕ → ℕ → List String → Exec (Worker Text) (Option QueueItem)
  unfolding take_or_skip
  next_due zero now skipped = raise out_of_fuel
  next_due (suc fuel) now skipped = do
    item ← on_queue (claim_next now skipped)
    take_or_skip now skipped (next_due fuel now) item

  fail : ℕ → QueueItem → Reason → Bool → Exec (Worker Text) Bool
  unfolding on_queue on_metrics
  fail now item reason permanently = do
    on_metrics (λ m. count_failure reason (count_failed m))
    on_queue (mark_failed now item permanently)
    pure true

  -- `datetime.now(UTC) + timedelta(seconds=delay)`
  next_retry_at : ℕ → ℕ → Exec (Worker Text) DateTime
  next_retry_at now delay =
      if leb (now + delay * 1000) max_instant
      then pure (utc (now + delay * 1000))
      else raise overflow_error

  retry_at : ℕ → QueueItem → Reason → DateTime → Exec (Worker Text) Bool
  unfolding on_queue on_metrics
  retry_at now item reason at = do
    updated ← on_queue (update_attempt now item at)
    on_queue (move_back_to_pending updated)
    on_metrics (count_failure reason)
    pure true

  schedule_retry : ℕ → QueueItem → Reason → ℕ → Exec (Worker Text) Bool
  unfolding next_retry_at retry_at
  schedule_retry now item reason delay = do
    at ← next_retry_at now delay
    retry_at now item reason at

  retry_in_schedule : ℕ → QueueItem → Reason → Option ℕ → Option ℕ → Exec (Worker Text) Bool
  unfolding fail schedule_retry delay_ms
  retry_in_schedule now item reason retry_after none = fail now item Reason.exhausted true
  retry_in_schedule now item reason retry_after (some scheduled) =
      schedule_retry now item reason (delay_ms scheduled retry_after)

  -- _handle_recoverable_delivery_failure; `item.attempts >= len(schedule)` is the missing entry
  handle_recoverable_delivery_failure : ℕ → QueueItem → Reason → Option ℕ → Exec (Worker Text) Bool
  unfolding retry_in_schedule
  handle_recoverable_delivery_failure now item reason retry_after = do
    schedule ← gets (λ w. w.retry_schedule_seconds)
    retry_in_schedule now item reason retry_after (get_elem? schedule item.attempts)

  -- the `except` clauses
  on_delivery_error : ℕ → QueueItem → Exception → Exec (Worker Text) Bool
  unfolding handle_recoverable_delivery_failure fail on_queue on_metrics
  on_delivery_error now item validation_error = do
    on_metrics count_failed
    on_queue (mark_failed now item true)
    pure true
  on_delivery_error now item auth_error = fail now item Reason.auth_error true
  on_delivery_error now item (rate_limited retry_after) =
      handle_recoverable_delivery_failure now item Reason.rate_limited (some retry_after)
  on_delivery_error now item transport_error =
      handle_recoverable_delivery_failure now item Reason.transport_error none
  on_delivery_error now item telegram_error = fail now item Reason.exhausted true
  on_delivery_error now item e = fail now item Reason.exhausted false

  on_delivered : ℕ → QueueItem → Exec (Worker Text) Bool
  unfolding on_queue on_metrics
  on_delivered now item = do
    on_queue (mark_sent now item)
    on_metrics (λ m. record m {
      sms_delivered_total = m.sms_delivered_total + 1;
      telegram_send_success = m.telegram_send_success + 1;
      last_telegram_success_seconds = now;
    })
    modify (λ w. record w { last_telegram_success_at = some now })
    pure true

  pub settle : ℕ → QueueItem → Result (Unit {0}) → Exec (Worker Text) Bool
  unfolding on_delivered on_delivery_error
  settle now item (ok _) = on_delivered now item
  settle now item (raised e) = on_delivery_error now item e

module _ {Text : Type 0} ⦃html : HtmlParser⦄ where
  send_built : Result TelegramMessage → Worker Text → Result (Unit {0}) × Worker Text
  unfolding on_telegram
  send_built (raised e) w = (raised e, w)
  send_built (ok message) w = on_telegram (Client.send_message message) w

  -- the body of the `try`
  deliver : QueueItem → Worker Text → Result (Unit {0}) × Worker Text
  unfolding send_built
  deliver item w =
      send_built (from_sms w.telegram_chat_id (chars item.sms.number) (chars item.sms.text)) w

module _ {Text : Type 0} ⦃codec : Codec Text⦄ ⦃hashing : Hashing⦄ ⦃html : HtmlParser⦄ where
  attempt : ℕ → Option QueueItem → Exec (Worker Text) Bool
  unfolding deliver settle
  attempt now none w = pure false w
  attempt now (some item) w = let (r, w') = deliver item w in settle now item r w'

  -- One round for each pending file, and one to find that none is left.
  unfoldable pub process_one_pending_item : ℕ → Exec (Worker Text) Bool
  unfolding next_due attempt
  process_one_pending_item now = do
    pending ← gets (λ w. length w.queue.dirs.pending)
    item ← next_due (suc pending) now []
    attempt now item

  -- One turn of `run`: the work, with every exception logged, and the wait for a wakeup if there
  -- was none to do, which ends by the event or the timeout and clears the event.
  unfoldable pub turn : ℕ → Worker Text → Worker Text
  unfolding process_one_pending_item
  turn now w =
      let (r, w') = catch (process_one_pending_item now) (λ _. pure false) w in after_work r w'
    where
      after_work : Result Bool → Worker Text → Worker Text
      after_work (ok true) v = v
      after_work _ v = if v.stop_event then v else record v { wakeup_event = false }

module _ {Text : Type 0} where
  unfoldable pub stop : Worker Text → Worker Text
  stop w = record w { stop_event = true; wakeup_event = true }

  unfoldable pub reset : Worker Text → Worker Text
  reset w = record w { stop_event = false; wakeup_event = false }

  unfoldable pub wakeup : Worker Text → Worker Text
  wakeup w = record w { wakeup_event = true }
