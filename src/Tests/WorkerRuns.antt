-- ===== src/Tests/WorkerRuns.antt =====
-- Runs of the worker's theorems.
use sms_gateway_v.Base.{◌≡◌, refl, true, [], ◌∷◌, get_elem?, arith}
use sms_gateway_v.Exec.{Result, ok, raised, rate_limited}
use sms_gateway_v.Exec.Raises.{is_fuelled}
use sms_gateway_v.Queue.Models.{is_digest, validate_content_hash}
use sms_gateway_v.Queue.Directory.{file}
use sms_gateway_v.Queue.Dedup.{row_of}
use sms_gateway_v.Queue.Hash.{content_hash_for_item}
use sms_gateway_v.Worker.{settle, next_due}
use sms_gateway_v.Worker.Verdict.{Settled, verdict, settle-Settled}
use sms_gateway_v.Worker.Returns.{settle-returns}
use sms_gateway_v.Worker.Terminates.{process_one_pending_item-fuelled}
use sms_gateway_v.Tests.Fixtures.{
  item_codec, constant_hashing, item, one_pending, one_processing, worker_on,
}

rate_limit : Result (Unit {0})
rate_limit = raised (rate_limited 7000)

settle_returns_example : (settle 900 item rate_limit (worker_on one_processing)).0 ≡ ok true
unfolding verdict file row_of content_hash_for_item rate_limit
settle_returns_example =
    settle-returns 900 item rate_limit (worker_on one_processing)
      (record { initialized = refl; connected = refl; in_processing = refl; row = refl })
      (omega arith)

-- the run as an equation
is_settled : (settle 900 item rate_limit (worker_on one_processing)).0 ≡ ok true
unfolding verdict file row_of content_hash_for_item rate_limit
is_settled =
    settle-returns 900 item rate_limit (worker_on one_processing)
      (record { initialized = refl; connected = refl; in_processing = refl; row = refl })
      (omega arith)

limited :
    settle 900 item rate_limit (worker_on one_processing)
    ≡ (ok true, (settle 900 item rate_limit (worker_on one_processing)).1)
limited = λ i. (is_settled i, (settle 900 item rate_limit (worker_on one_processing)).1)

settle_example :
    Settled
      (verdict (get_elem? (5 ∷ 60 ∷ []) 0) rate_limit)
      900
      item
      one_processing
      (settle 900 item rate_limit (worker_on one_processing)).1.queue
unfolding validate_content_hash is_digest
settle_example =
    settle-Settled 900 item rate_limit true (worker_on one_processing)
      (settle 900 item rate_limit (worker_on one_processing)).1 refl limited

terminates_example : is_fuelled (next_due 2 800 [] (worker_on one_pending)).0 ≡ true
terminates_example = process_one_pending_item-fuelled 800 (worker_on one_pending)
