-- ===== src/Config/Schedule.antt =====
-- config.py: the retry schedule of the worker, from the text that the environment gives.
pub mod Printed
pub mod Accepted
use sms_gateway_v.Base.{
  ℕ, zero, suc, ◌+◌, ◌-◌, ◌*◌, Bool, true, false, ◌&&◌, Option, none, some, List, [], ◌∷◌, nat_eq,
  if◌then◌else◌,
}
use sms_gateway_v.Telegram.Message.{Chars}
use sms_gateway_v.Telegram.Message.Strip.{strip}
use sms_gateway_v.Modem.Timestamps.{is_digit}

-- Python's `int`: `negsuc n` is -(n + 1).
pub data ℤ : Type 0 where
  pos negsuc : ℕ → ℤ

cons_first : ℕ → List Chars → List Chars
cons_first c [] = (c ∷ []) ∷ []
cons_first c (part ∷ parts) = (c ∷ part) ∷ parts

-- `value.split(",")`
pub split_commas : Chars → List Chars
unfolding cons_first
split_commas [] = [] ∷ []
split_commas (c ∷ cs) =
    if nat_eq c b',' then [] ∷ split_commas cs else cons_first c (split_commas cs)

-- the rest of a numeral; an underscore stands between two digits
after_digit : ℕ → Chars → Option ℕ
after_digit value [] = some value
after_digit value (c ∷ []) = if is_digit c then some (value * 10 + (c - b'0')) else none
after_digit value (c ∷ d ∷ cs) =
    let digit = after_digit (value * 10 + (c - b'0')) (d ∷ cs) in
    let underscore = after_digit (value * 10 + (d - b'0')) cs in
    if is_digit c then digit else if nat_eq c b'_' && is_digit d then underscore else none

unsigned : Chars → Option ℕ
unfolding after_digit
unsigned [] = none
unsigned (c ∷ cs) = if is_digit c then after_digit (c - b'0') cs else none

negative : ℕ → ℤ
negative zero = pos 0
negative (suc n) = negsuc n

with_sign : (ℕ → ℤ) → Option ℕ → Option ℤ
with_sign sign none = none
with_sign sign (some n) = some (sign n)

-- `int(part)`, with `none` for its ValueError
int_of : Chars → Option ℤ
unfolding unsigned negative with_sign
int_of [] = none
int_of (c ∷ cs) =
    if nat_eq c b'-'
    then with_sign negative (unsigned cs)
    else if nat_eq c b'+'
    then with_sign pos (unsigned cs)
    else with_sign pos (unsigned (c ∷ cs))

add_first : Option ℤ → Option (List ℤ) → Option (List ℤ)
add_first (some n) (some ns) = some (n ∷ ns)
add_first n ns = none

-- `if part.strip()`
add_part : Chars → Option (List ℤ) → Option (List ℤ)
unfolding int_of add_first
add_part [] rest = rest
add_part (c ∷ cs) rest = add_first (int_of (c ∷ cs)) rest

ints_of : List Chars → Option (List ℤ)
unfolding add_part
ints_of [] = some []
ints_of (part ∷ parts) = add_part (strip part) (ints_of parts)

-- parse_worker_retry_schedule_seconds, of a text
unfoldable pub parse_worker_retry_schedule_seconds : Chars → Option (List ℤ)
unfolding ints_of split_commas
parse_worker_retry_schedule_seconds value = ints_of (split_commas value)

add_delay : ℕ → Option (List ℕ) → Option (List ℕ)
add_delay n none = none
add_delay n (some ns) = some (n ∷ ns)

-- `any(delay <= 0 for delay in value)` makes it none
positives : List ℤ → Option (List ℕ)
unfolding add_delay
positives [] = some []
positives (negsuc n ∷ ns) = none
positives (pos zero ∷ ns) = none
positives (pos (suc n) ∷ ns) = add_delay (suc n) (positives ns)

-- validate_worker_retry_schedule_seconds, with `none` for its ValueError
unfoldable pub validate_worker_retry_schedule_seconds : List ℤ → Option (List ℕ)
unfolding positives
validate_worker_retry_schedule_seconds [] = none
validate_worker_retry_schedule_seconds (n ∷ ns) = positives (n ∷ ns)

validated : Option (List ℤ) → Option (List ℕ)
validated none = none
validated (some ns) = validate_worker_retry_schedule_seconds ns

-- The two validators of the field, one after the other.
unfoldable pub schedule_of : Chars → Option (List ℕ)
unfolding validated
schedule_of value = validated (parse_worker_retry_schedule_seconds value)
