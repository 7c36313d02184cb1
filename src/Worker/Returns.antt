-- ===== src/Worker/Returns.antt =====
-- worker/worker.py: the outcome of an attempt is always dealt with.
use sms_gateway_v.Base.{
  ℕ, ◌+◌, ◌*◌, ◌≤◌, ◌≡◌, le→leb, Bool, true, false, Option, none, some, arith, get_elem?,
  Option-cases, inl, inr, max, subst, ap, ◌∙◌,
}
use sms_gateway_v.Exec.{
  Result, ok, raised, validation_error, auth_error, transport_error, rate_limited, telegram_error,
  ◌>>=◌,
}
use sms_gateway_v.Queue.Models.{QueueItem, Codec, Hashing, utc}
use sms_gateway_v.Queue.Mark.Returns.{
  IsClaim, mark_sent-returns, mark_failed-returns, retry-returns,
}
use sms_gateway_v.Metrics.{Reason}
use sms_gateway_v.Worker.Verdict.{Fits, verdict}
use sms_gateway_v.Worker.{
  Worker, on_queue, on_metrics, settle, on_delivered, on_delivery_error,
  handle_recoverable_delivery_failure, retry_in_schedule, fail, schedule_retry, delay_ms,
  next_retry_at, retry_at, max_instant,
}

limited-Fits :
    (now t : ℕ) (scheduled : Option ℕ) (d : ℕ)
    → Fits now (verdict scheduled (raised (rate_limited t)))
    → scheduled ≡ some d
    → now + delay_ms d (some t) * 1000 ≤ max_instant
unfolding verdict delay_ms
limited-Fits now t none d fits e = absurd (ground arith)
limited-Fits now t (some s) d fits e =
    let e' : s ≡ d = ground arith in
    subst (λ x. now + max (x * 1000) t * 1000 ≤ max_instant) e' fits

lost-Fits :
    (now : ℕ) (scheduled : Option ℕ) (d : ℕ)
    → Fits now (verdict scheduled (raised transport_error))
    → scheduled ≡ some d
    → now + delay_ms d none * 1000 ≤ max_instant
unfolding verdict delay_ms
lost-Fits now none d fits e = absurd (ground arith)
lost-Fits now (some s) d fits e =
    let e' : s ≡ d = ground arith in
    let plain : max (s * 1000) 0 ≡ s * 1000 = omega arith in
    subst (λ x. now + x * 1000 ≤ max_instant) (plain ∙ ap (λ x. x * 1000) e') fits

module _ {Text : Type 0} ⦃codec : Codec Text⦄ ⦃hashing : Hashing⦄ where
  fail-returns :
      (now : ℕ) (item : QueueItem) (reason : Reason) (permanently : Bool) (w : Worker Text)
      → IsClaim item w.queue
      → (fail now item reason permanently w).0 ≡ ok true
  unfolding fail on_queue on_metrics ◌>>=◌
  fail-returns now item reason permanently w c =
      ground (arith, mark_failed-returns now item permanently w.queue c)

  schedule_retry-returns :
      (now : ℕ) (item : QueueItem) (reason : Reason) (delay : ℕ) (w : Worker Text)
      → IsClaim item w.queue
      → now + delay * 1000 ≤ max_instant
      → (schedule_retry now item reason delay w).0 ≡ ok true
  unfolding schedule_retry next_retry_at retry_at on_queue on_metrics ◌>>=◌
  schedule_retry-returns now item reason delay w c fits =
      let at = utc (now + delay * 1000) in
      rw (le→leb (now + delay * 1000) max_instant fits)
        (ground (arith, retry-returns now item at w.queue c))

  handle-returns :
      (now : ℕ) (item : QueueItem) (reason : Reason) (retry_after : Option ℕ) (w : Worker Text)
      → IsClaim item w.queue
      → ((d : ℕ)
          → get_elem? w.retry_schedule_seconds item.attempts ≡ some d
          → now + delay_ms d retry_after * 1000 ≤ max_instant)
      → (handle_recoverable_delivery_failure now item reason retry_after w).0 ≡ ok true
  unfolding handle_recoverable_delivery_failure retry_in_schedule ◌>>=◌
  handle-returns now item reason retry_after w c fits =
      elim (Option-cases (get_elem? w.retry_schedule_seconds item.attempts)) [
        | inl e ↦ ground (arith, fail-returns now item Reason.exhausted true w c)
        | inr (d, e) ↦
            ground (
              arith,
              schedule_retry-returns now item reason (delay_ms d retry_after) w c (fits d e),
            )
      ]

  on_delivered-returns :
      (now : ℕ) (item : QueueItem) (w : Worker Text)
      → IsClaim item w.queue
      → (on_delivered now item w).0 ≡ ok true
  unfolding on_delivered on_queue on_metrics ◌>>=◌
  on_delivered-returns now item w c = ground (arith, mark_sent-returns now item w.queue c)

  reject-returns :
      (now : ℕ) (item : QueueItem) (w : Worker Text)
      → IsClaim item w.queue
      → (on_delivery_error now item validation_error w).0 ≡ ok true
  unfolding on_delivery_error on_queue on_metrics ◌>>=◌
  reject-returns now item w c = ground (arith, mark_failed-returns now item true w.queue c)

  -- The worker deals with every outcome of an attempt on a claimed item: if the queue and its store
  -- are open, the item's file is in processing and its content hash has a row, and the time of a
  -- retry that the outcome asks for is no later than datetime.max, nothing is raised and the pass
  -- reports that it has worked.
  pub settle-returns :
      (now : ℕ) (item : QueueItem) (r : Result (Unit {0})) (w : Worker Text)
      → IsClaim item w.queue
      → Fits now (verdict (get_elem? w.retry_schedule_seconds item.attempts) r)
      → (settle now item r w).0 ≡ ok true
  unfolding settle on_delivery_error
  settle-returns now item (ok _) w c fits = on_delivered-returns now item w c
  settle-returns now item (raised (rate_limited t)) w c fits =
      handle-returns now item Reason.rate_limited (some t) w c
        λ d e. limited-Fits now t (get_elem? w.retry_schedule_seconds item.attempts) d fits e
  settle-returns now item (raised transport_error) w c fits =
      handle-returns now item Reason.transport_error none w c
        λ d e. lost-Fits now (get_elem? w.retry_schedule_seconds item.attempts) d fits e
  settle-returns now item (raised validation_error) w c fits = reject-returns now item w c
  settle-returns now item (raised auth_error) w c fits =
      fail-returns now item Reason.auth_error true w c
  settle-returns now item (raised telegram_error) w c fits =
      fail-returns now item Reason.exhausted true w c
  settle-returns now item (raised x) w c fits = fail-returns now item Reason.exhausted false w c
