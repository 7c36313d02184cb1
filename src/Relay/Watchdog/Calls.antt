-- ===== src/Relay/Watchdog/Calls.antt =====
-- relay/watchdog.py: which calls of the modem a poll makes, and what it leaves of the two counters.
use sms_gateway_v.Base.{
  ℕ, ◌+◌, ◌-◌, ◌*◌, ◌≡◌, refl, String, Bool, true, false, ◌||◌, Option, none, some, List, ◌∷◌, ◌==◌,
  leb, nat_eq, arith, if◌then◌else◌,
}
use sms_gateway_v.Modem.Models.{RegistrationState, unknown, searching, denied, SignalQuality}
use sms_gateway_v.Relay.Watchdog.{
  Watchdog, Reading, Answers, Action, enable, reset, poll_once, observe, after_poll, recover,
  try_enable, try_reset, is_cooling, after_enable, is_triggered, is_overdue, next_zero_polls,
  next_bad_since, is_enable_recoverable, is_bad,
}

-- the polls in a row with a fresh signal of zero, this one included; a stale one does not count
abbrev pub zeros_in_row : SignalQuality → ℕ → ℕ
zeros_in_row signal before =
    if signal.recent then (if nat_eq signal.percent 0 then before + 1 else 0) else before

-- since when the registration is denied, searching or unknown
abbrev pub bad_start : ℕ → RegistrationState → Option ℕ → Option ℕ
bad_start now denied none = some now
bad_start now searching none = some now
bad_start now unknown none = some now
bad_start now denied (some t) = some t
bad_start now searching (some t) = some t
bad_start now unknown (some t) = some t
bad_start now _ _ = none

-- so many minutes have passed since then
abbrev pub is_long : ℕ → ℕ → Option ℕ → Bool
is_long now minutes none = false
is_long now minutes (some start) = leb (minutes * 60 * 1_000_000) (now - start)

-- the poll is one on which the modem is to be recovered
abbrev pub is_needed : ℕ → Reading → Watchdog → Bool
is_needed now r w =
    leb w.signal_zero_threshold (zeros_in_row r.signal w.consecutive_zero_signal_polls)
    || is_long now w.bad_state_minutes (bad_start now r.registration w.bad_state_since)

-- the modem is in a state that `enable` ends
abbrev pub is_off : String → Bool
is_off state = ("disabled" == state) || (("locked" == state) || ("failed" == state))

-- the cooldown of `enable` is over
abbrev pub is_ready : ℕ → ℕ → Option ℕ → Bool
is_ready now cooldown none = true
is_ready now cooldown (some last) = leb (last + cooldown) now

-- the call that a poll makes, if it makes one
abbrev pub call_of : ℕ → Option Reading → Watchdog → Option Action
call_of now none w = none
call_of now (some r) w =
    if is_needed now r w
    then (if is_off r.modem_state
        then (if is_ready now w.enable_cooldown w.last_enable_attempt_at then some enable else none)
        else some reset)
    else none

abbrev pub called : ℕ → Option Action → List (ℕ × Action) → List (ℕ × Action)
called now none calls = calls
called now (some a) calls = (now, a) ∷ calls

-- the counters after the poll
abbrev pub counters : ℕ → Option Reading → Watchdog → ℕ × Option ℕ
counters now none w = (w.consecutive_zero_signal_polls, w.bad_state_since)
counters now (some r) w = if is_needed now r w then (0, none) else (
  zeros_in_row r.signal w.consecutive_zero_signal_polls,
  bad_start now r.registration w.bad_state_since,
)

zeros : (signal : SignalQuality) (n : ℕ) → next_zero_polls signal n ≡ zeros_in_row signal n
unfolding next_zero_polls
zeros signal n = ground arith

started_bad :
    (now : ℕ) (reg : RegistrationState) (since : Option ℕ)
    → next_bad_since now (is_bad reg) since ≡ bad_start now reg since
unfolding next_bad_since
started_bad now reg none = ground arith
started_bad now reg (some t) = ground arith

long :
    (now minutes : ℕ) (since : Option ℕ) → is_overdue now minutes since ≡ is_long now minutes since
unfolding is_overdue
long now minutes none = refl
long now minutes (some t) = ground arith

pub is_triggered-needed :
    (now : ℕ) (r : Reading) (w : Watchdog) → is_triggered now (observe now r w) ≡ is_needed now r w
unfolding is_triggered observe
is_triggered-needed now r w =
    rw
      (
        zeros r.signal w.consecutive_zero_signal_polls,
        started_bad now r.registration w.bad_state_since,
        long now w.bad_state_minutes (bad_start now r.registration w.bad_state_since),
      )
      refl

off : (state : String) → is_enable_recoverable state ≡ is_off state
unfolding is_enable_recoverable
off state = ground arith

ready :
    (now cooldown : ℕ) (last : Option ℕ)
    → is_ready now cooldown last ≡ (if is_cooling now cooldown last then false else true)
unfolding is_cooling
ready now cooldown none = refl
ready now cooldown (some t) = ground arith

reading-calls :
    (now : ℕ) (r : Reading) (a : Answers) (w : Watchdog)
    → ((poll_once now (some r) a w).calls ≡ called now (call_of now (some r) w) w.calls)
      × ((
        (poll_once now (some r) a w).consecutive_zero_signal_polls,
        (poll_once now (some r) a w).bad_state_since,
      )
          ≡ counters now (some r) w)
unfolding poll_once after_poll recover try_enable try_reset after_enable observe
reading-calls now r a w = ground (
  arith,
  is_triggered-needed now r w,
  off r.modem_state,
  ready now w.enable_cooldown w.last_enable_attempt_at,
  zeros r.signal w.consecutive_zero_signal_polls,
  started_bad now r.registration w.bad_state_since,
)

-- A poll calls the modem at most once. Without a reading it makes no call and leaves the counters as
-- they are. With one it acts exactly if the polls in a row with a fresh zero signal, this one
-- included, have reached the threshold, or the registration has been denied, searching or unknown
-- for as many minutes as are allowed: then `enable`, unless its cooldown is running, if the modem is
-- disabled, locked or failed, and `reset` if it is not; in either case, also in the cooldown, both
-- counters start again. Otherwise they take the reading in.
pub poll_once-calls :
    (now : ℕ) (reading : Option Reading) (a : Answers) (w : Watchdog)
    → ((poll_once now reading a w).calls ≡ called now (call_of now reading w) w.calls)
      × ((
        (poll_once now reading a w).consecutive_zero_signal_polls,
        (poll_once now reading a w).bad_state_since,
      )
          ≡ counters now reading w)
unfolding poll_once
poll_once-calls now none a w = (refl, refl)
poll_once-calls now (some r) a w = reading-calls now r a w
