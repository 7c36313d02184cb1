-- ===== src/Worker/Verdict.antt =====
-- worker/worker.py: what becomes of an item after an attempt, by the outcome of the attempt.
use sms_gateway_v.Base.{
  ℕ, ◌+◌, ◌*◌, ◌≤◌, max, ◌≡◌, Bool, true, false, Option, none, some, arith, get_elem?, ap, ◌∙◌, sym,
  subst,
}
use sms_gateway_v.Exec.{
  Exec, Result, ok, raised, validation_error, auth_error, transport_error, rate_limited,
  telegram_error, pure, ◌>>=◌, ◌>>◌,
}
use sms_gateway_v.Exec.Inversion.{bind-ok}
use sms_gateway_v.Queue.Mark.Retries.{update_attempt-moved}
use sms_gateway_v.Queue.Models.{
  validate_content_hash, ItemStatus, DateTime, QueueItem, Codec, Hashing, utc,
}
use sms_gateway_v.Queue.Directory.{file}
use sms_gateway_v.Queue.Dedup.{row_of}
use sms_gateway_v.Queue.State.{SubDir, Queue, load_item}
use sms_gateway_v.Queue.Hash.{content_hash_for_item}
use sms_gateway_v.Queue.Claim.Claimed.{status_of}
use sms_gateway_v.Queue.Mark.{move_back_to_pending, update_attempt}
use sms_gateway_v.Queue.Mark.Settles.{mark_sent-sent, mark_failed-failed}
use sms_gateway_v.Metrics.{Metrics, Reason}
use sms_gateway_v.Worker.{
  Worker, on_queue, on_metrics, settle, on_delivered, on_delivery_error,
  handle_recoverable_delivery_failure, retry_in_schedule, fail, schedule_retry, delay_ms,
  next_retry_at, retry_at, count_failure,
}

pub data Verdict : Type 0 where
  delivered : Verdict
  -- the delay, in milliseconds
  retried : ℕ → Verdict
  -- whether it is permanent
  failed : Bool → Verdict

-- A recoverable failure is retried while the schedule has a delay left.
abbrev pub in_schedule : Option ℕ → ℕ → Verdict
in_schedule none least = failed true
in_schedule (some scheduled) least = retried (max (scheduled * 1000) least)

abbrev pub at_least : Option ℕ → ℕ
at_least none = 0
at_least (some retry_after) = retry_after

-- The verdict on an attempt, by the delay that the schedule has for it.
unfoldable pub verdict : Option ℕ → Result (Unit {0}) → Verdict
verdict scheduled (ok _) = delivered
verdict scheduled (raised (rate_limited retry_after)) = in_schedule scheduled retry_after
verdict scheduled (raised transport_error) = in_schedule scheduled 0
verdict scheduled (raised validation_error) = failed true
verdict scheduled (raised auth_error) = failed true
verdict scheduled (raised telegram_error) = failed true
verdict scheduled (raised e) = failed false

-- The time of a retry that the verdict sets is one that a datetime can hold.
abbrev pub Fits : ℕ → Verdict → Type 0
Fits now (retried delay) = now + delay * 1000 ≤ 253_402_300_799_999_999
Fits now _ = Unit {0}

module _ {Text : Type 0} ⦃codec : Codec Text⦄ ⦃hashing : Hashing⦄ where
  -- Where an item is after its verdict: in sent as it was, in pending with one more attempt and
  -- its time, or in failed. It has left processing.
  pub Settled : Verdict → ℕ → QueueItem → Queue Text → Queue Text → Type 0
  Settled delivered now item q q' =
      (file item.id q'.dirs.sent ≡ file item.id q.dirs.processing)
      × (file item.id q'.dirs.processing ≡ none)
      × (status_of (row_of (content_hash_for_item q.dedup_window_minutes item) q'.dedup.rows)
          ≡ some ItemStatus.sent)
  Settled (retried delay) now item q q' =
      (load_item SubDir.pending item.id q'
        ≡ some (record item {
          attempts = item.attempts + 1;
          last_attempt_at = some (utc now);
          next_retry_at = some (utc (now + delay * 1000));
        }))
      × (file item.id q'.dirs.processing ≡ none)
  Settled (failed permanently) now item q q' =
      (load_item SubDir.failed item.id q' ≡ some (record item { permanently_failed = permanently }))
      × (file item.id q'.dirs.processing ≡ none)
      × (status_of (row_of (content_hash_for_item q.dedup_window_minutes item) q'.dedup.rows)
          ≡ some ItemStatus.failed)

  on_queue-ok :
      {A : Type 0} (m : Exec (Queue Text) A) (w w' : Worker Text) (a : A)
      → on_queue m w ≡ (ok a, w')
      → m w.queue ≡ (ok a, w'.queue)
  unfolding on_queue
  on_queue-ok m w w' a e = ground arith

  counted :
      (f : Metrics → Metrics) (w w' : Worker Text) (b : Bool)
      → (on_metrics f >> pure true) w ≡ (ok b, w')
      → w'.queue ≡ w.queue
  unfolding on_metrics ◌>>=◌
  counted f w w' b e = ground arith

  fail-Settled :
      (now : ℕ) (item : QueueItem) (reason : Reason) (permanently b : Bool) (w w' : Worker Text)
      → validate_content_hash item.content_hash ≡ true
      → fail now item reason permanently w ≡ (ok b, w')
      → Settled (failed permanently) now item w.queue w'.queue
  unfolding fail on_queue on_metrics Settled ◌>>=◌
  fail-Settled now item reason permanently b w w' v e =
      ground (arith, mark_failed-failed now item permanently w.queue w'.queue v)

  next_retry_at-ok :
      (now delay : ℕ) (w w' : Worker Text) (at : DateTime)
      → next_retry_at now delay w ≡ (ok at, w')
      → (at ≡ utc (now + delay * 1000)) × (w' ≡ w)
  unfolding next_retry_at ◌>>=◌
  next_retry_at-ok now delay w w' at e = ground arith

  retry_at-Settled :
      (now : ℕ) (item : QueueItem) (reason : Reason) (delay : ℕ) (b : Bool) (w w' : Worker Text)
      → validate_content_hash item.content_hash ≡ true
      → retry_at now item reason (utc (now + delay * 1000)) w ≡ (ok b, w')
      → Settled (retried delay) now item w.queue w'.queue
  unfolding retry_at Settled
  retry_at-Settled now item reason delay b w w' v e =
      let at = utc (now + delay * 1000) in
      let (updated, w₁, e₁, d₁) = bind-ok (on_queue (update_attempt now item at)) _ w w' b e in
      let (t, w₂, e₂, d₂) = bind-ok (on_queue (move_back_to_pending updated)) _ w₁ w' b d₁ in
      let q = on_queue-ok (update_attempt now item at) w w₁ updated e₁ in
      let q' = on_queue-ok (move_back_to_pending updated) w₁ w₂ t e₂ in
      let same : w'.queue ≡ w₂.queue = counted (count_failure reason) w₂ w' b d₂ in
      update_attempt-moved now item updated at w.queue w₁.queue w'.queue v q
        (q' ∙ ap (λ x. (ok tt, x)) (sym same))

  schedule_retry-Settled :
      (now : ℕ) (item : QueueItem) (reason : Reason) (delay : ℕ) (b : Bool) (w w' : Worker Text)
      → validate_content_hash item.content_hash ≡ true
      → schedule_retry now item reason delay w ≡ (ok b, w')
      → Settled (retried delay) now item w.queue w'.queue
  unfolding schedule_retry
  schedule_retry-Settled now item reason delay b w w' v e =
      let (at, w₀, e₀, d) = bind-ok (next_retry_at now delay) (retry_at now item reason) w w' b e in
      let (late, kept) = next_retry_at-ok now delay w w₀ at e₀ in
      let run : retry_at now item reason (utc (now + delay * 1000)) w ≡ (ok b, w') =
        cc (late, kept, d) in
      retry_at-Settled now item reason delay b w w' v run

  retry_in_schedule-Settled :
      (now : ℕ) (item : QueueItem) (reason : Reason) (retry_after scheduled : Option ℕ) (b : Bool)
      (w w' : Worker Text)
      → validate_content_hash item.content_hash ≡ true
      → retry_in_schedule now item reason retry_after scheduled w ≡ (ok b, w')
      → Settled (in_schedule scheduled (at_least retry_after)) now item w.queue w'.queue
  unfolding retry_in_schedule delay_ms
  retry_in_schedule-Settled now item reason retry_after none b w w' v e =
      fail-Settled now item Reason.exhausted true b w w' v e
  retry_in_schedule-Settled now item reason none (some scheduled) b w w' v e =
      schedule_retry-Settled now item reason _ b w w' v
        (subst (λ d. schedule_retry now item reason d w ≡ (ok b, w')) plain e)
    where
      plain : scheduled * 1000 ≡ max (scheduled * 1000) 0
      plain = omega arith
  retry_in_schedule-Settled now item reason (some t) (some scheduled) b w w' v e =
      schedule_retry-Settled now item reason _ b w w' v e

  handle-Settled :
      (now : ℕ) (item : QueueItem) (reason : Reason) (retry_after : Option ℕ) (b : Bool)
      (w w' : Worker Text)
      → validate_content_hash item.content_hash ≡ true
      → handle_recoverable_delivery_failure now item reason retry_after w ≡ (ok b, w')
      → Settled
          (in_schedule (get_elem? w.retry_schedule_seconds item.attempts) (at_least retry_after))
          now
          item
          w.queue
          w'.queue
  unfolding handle_recoverable_delivery_failure ◌>>=◌
  handle-Settled now item reason retry_after b w w' v e =
      retry_in_schedule-Settled now item reason retry_after
        (get_elem? w.retry_schedule_seconds item.attempts) b w w' v e

  on_delivered-Settled :
      (now : ℕ) (item : QueueItem) (b : Bool) (w w' : Worker Text)
      → on_delivered now item w ≡ (ok b, w')
      → Settled delivered now item w.queue w'.queue
  unfolding on_delivered on_queue on_metrics Settled ◌>>=◌
  on_delivered-Settled now item b w w' e = ground (arith, mark_sent-sent now item w.queue w'.queue)

  reject-Settled :
      (now : ℕ) (item : QueueItem) (b : Bool) (w w' : Worker Text)
      → validate_content_hash item.content_hash ≡ true
      → on_delivery_error now item validation_error w ≡ (ok b, w')
      → Settled (failed true) now item w.queue w'.queue
  unfolding on_delivery_error on_queue on_metrics Settled ◌>>=◌
  reject-Settled now item b w w' v e =
      ground (arith, mark_failed-failed now item true w.queue w'.queue v)

  -- What the worker makes of an attempt: when it has dealt with the outcome without raising, the
  -- item, whose hash is one that the validator lets in, is where the verdict puts it. The verdict
  -- takes the outcome and the entry of the schedule at the number of earlier attempts.
  pub settle-Settled :
      (now : ℕ) (item : QueueItem) (r : Result (Unit {0})) (b : Bool) (w w' : Worker Text)
      → validate_content_hash item.content_hash ≡ true
      → settle now item r w ≡ (ok b, w')
      → Settled
          (verdict (get_elem? w.retry_schedule_seconds item.attempts) r)
          now
          item
          w.queue
          w'.queue
  unfolding settle on_delivery_error verdict
  settle-Settled now item (ok _) b w w' v e = on_delivered-Settled now item b w w' e
  settle-Settled now item (raised (rate_limited t)) b w w' v e =
      handle-Settled now item Reason.rate_limited (some t) b w w' v e
  settle-Settled now item (raised transport_error) b w w' v e =
      handle-Settled now item Reason.transport_error none b w w' v e
  settle-Settled now item (raised validation_error) b w w' v e = reject-Settled now item b w w' v e
  settle-Settled now item (raised x) b w w' v e = fail-Settled now item _ _ b w w' v e
