-- ===== src/Duration.antt =====
-- util/time_format.py: an age in at most two units. Instants are in microseconds.
pub mod Parts
use sms_gateway_v.Base.{
  ℕ, ◌+◌, ◌-◌, ◌*◌, ◌/◌, ◌%◌, Bool, true, false, Option, none, some, List, [], ◌∷◌, ◌++◌, nat_eq,
  length, String, ◌≡◌, refl, if◌then◌else◌,
}
use sms_gateway_v.Base.Decimal.{decimal}
use sms_gateway_v.Telegram.Message.{Chars, chars}

-- _SECONDS_PER_UNIT
pub data TimeUnit : Type 0 where
  day hour minute second : TimeUnit

abbrev pub unit_seconds : TimeUnit → ℕ
unit_seconds day = 86_400
unit_seconds hour = 3_600
unit_seconds minute = 60
unit_seconds second = 1

abbrev pub all_units : List TimeUnit
all_units = day ∷ hour ∷ minute ∷ second ∷ []

-- The loop, as values with their units; `break` at two parts.
pub split_from : List TimeUnit → ℕ → List (ℕ × TimeUnit) → List (ℕ × TimeUnit)
split_from [] remaining parts = parts
split_from (u ∷ us) remaining parts =
    let value = remaining / unit_seconds u in
    let left = remaining % unit_seconds u in
    let skipped = split_from us left parts in
    let parts' = parts ++ (value, u) ∷ [] in
    let next = split_from us left parts' in
    if nat_eq value 0 then skipped else if nat_eq (length parts') 2 then parts' else next

-- `max(0, int((now - timestamp).total_seconds()))`
pub elapsed_seconds : ℕ → ℕ → ℕ
elapsed_seconds now timestamp = (now - timestamp) / 1_000_000

unit_name : TimeUnit → Chars
unit_name day = chars "day"
unit_name hour = chars "hour"
unit_name minute = chars "minute"
unit_name second = chars "second"

-- `f"{value} {unit}{suffix}"`
part_text : ℕ × TimeUnit → Chars
unfolding unit_name
part_text (value, u) =
    chars (decimal value)
    ++ (chars " " ++ (unit_name u ++ (if nat_eq value 1 then [] else chars "s")))

-- `" ".join(parts)`
join_parts : List (ℕ × TimeUnit) → Chars
unfolding part_text
join_parts [] = chars "0 seconds"
join_parts (p ∷ []) = part_text p
join_parts (p ∷ q ∷ ps) = part_text p ++ (chars " " ++ join_parts (q ∷ ps))

unfoldable pub format_duration_since : ℕ → Option ℕ → Chars
unfolding join_parts split_from elapsed_seconds
format_duration_since now none = chars "(none)"
format_duration_since now (some timestamp) =
    join_parts (split_from all_units (elapsed_seconds now timestamp) [])

two_parts : format_duration_since 100_000_000_000 (some 3_000_000_000) ≡ chars "1 day 2 hours"
unfolding format_duration_since decimal
two_parts = refl
