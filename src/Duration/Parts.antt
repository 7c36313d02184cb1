-- ===== src/Duration/Parts.antt =====
-- util/time_format.py: what the parts of an age are worth.
use sms_gateway_v.Base.{ℕ, ◌+◌, ◌*◌, ◌≤◌, ◌<◌, List, [], ◌∷◌, length, arith}
use sms_gateway_v.Duration.{TimeUnit, unit_seconds, all_units, split_from}

-- what the parts add up to, in seconds
pub worth : List (ℕ × TimeUnit) → ℕ
worth [] = 0
worth ((value, u) ∷ ps) = value * unit_seconds u + worth ps

-- The precision: two parts stand for all times up to one more of the second unit, fewer are exact.
pub grain : List (ℕ × TimeUnit) → ℕ
grain [] = 1
grain (p ∷ []) = 1
grain (p ∷ (value, u) ∷ ps) = unit_seconds u

-- An age is cut into at most two parts; they are worth no more than it, and less than one unit of
-- the second part is lost: nothing is lost when there are fewer than two.
pub split_from-exact :
    (seconds : ℕ)
    → (length (split_from all_units seconds []) ≤ 2)
      × (worth (split_from all_units seconds []) ≤ seconds)
      × (seconds
          < worth (split_from all_units seconds []) + grain (split_from all_units seconds []))
unfolding split_from worth grain
split_from-exact seconds = (ground arith, ground arith, ground arith)
