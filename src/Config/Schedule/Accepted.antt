-- ===== src/Config/Schedule/Accepted.antt =====
-- config.py: what the validators of the schedule let through.
use sms_gateway_v.Base.{
  ℕ, zero, suc, ◌≡◌, refl, Bool, true, false, Option, none, some, List, [], ◌∷◌, arith,
}
use sms_gateway_v.Telegram.Message.{Chars}
use sms_gateway_v.Config.Schedule.{
  ℤ, pos, negsuc, add_delay, positives, validate_worker_retry_schedule_seconds,
  parse_worker_retry_schedule_seconds, validated, schedule_of,
}
use sms_gateway_v.Config.Schedule.Printed.{all_positive}

-- at least one delay, and all of them positive
pub is_schedule : List ℕ → Bool
unfolding all_positive
is_schedule [] = false
is_schedule (n ∷ ns) = all_positive (n ∷ ns)

abbrev pub Holds : (List ℕ → Bool) → Option (List ℕ) → Type 0
Holds test none = Unit {0}
Holds test (some ns) = test ns ≡ true

add_delay-positive :
    (n : ℕ) (o : Option (List ℕ)) → Holds all_positive o → Holds is_schedule (add_delay (suc n) o)
unfolding add_delay is_schedule all_positive
add_delay-positive n none h = tt
add_delay-positive n (some ns) h = ground (arith, h)

schedule-positive : (o : Option (List ℕ)) → Holds is_schedule o → Holds all_positive o
unfolding is_schedule all_positive
schedule-positive none h = tt
schedule-positive (some []) h = refl
schedule-positive (some (n ∷ ns)) h = h

positives-positive : (ns : List ℤ) → Holds all_positive (positives ns)
unfolding positives all_positive
positives-positive [] = refl
positives-positive (negsuc n ∷ ns) = tt
positives-positive (pos zero ∷ ns) = tt
positives-positive (pos (suc n) ∷ ns) =
    schedule-positive _ (add_delay-positive n (positives ns) (positives-positive ns))

validate-schedule : (ns : List ℤ) → Holds is_schedule (validate_worker_retry_schedule_seconds ns)
unfolding validate_worker_retry_schedule_seconds positives
validate-schedule [] = tt
validate-schedule (negsuc n ∷ ns) = tt
validate-schedule (pos zero ∷ ns) = tt
validate-schedule (pos (suc n) ∷ ns) = add_delay-positive n (positives ns) (positives-positive ns)

-- A text is refused, or gives at least one delay, all of them positive.
pub schedule_of-accepted : (value : Chars) → Holds is_schedule (schedule_of value)
unfolding schedule_of validated
schedule_of-accepted value = go (parse_worker_retry_schedule_seconds value)
  where
    go : (o : Option (List ℤ)) → Holds is_schedule (validated o)
    go none = tt
    go (some ns) = validate-schedule ns
