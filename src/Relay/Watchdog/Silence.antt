-- ===== src/Relay/Watchdog/Silence.antt =====
-- relay/watchdog.py: what a row of polls without a signal comes to.
use sms_gateway_v.Base.{
  ℕ, suc, ◌+◌, ◌<◌, ◌≡◌, refl, true, false, Option, none, some, List, [], ◌∷◌, ◌++◌, length, arith,
  ap, ◌∙◌,
}
use sms_gateway_v.Modem.Models.{RegistrationState}
use sms_gateway_v.Relay.Watchdog.{
  Watchdog, Reading, Answers, reset, poll_once, after_poll, observe, recover, try_enable, try_reset,
  after_enable,
}
use sms_gateway_v.Relay.Watchdog.Spacing.{polls}
use sms_gateway_v.Relay.Watchdog.Calls.{is_off, bad_start, poll_once-calls}

-- A fresh reading of no signal, of a modem that is on and not badly registered.
pub record IsSilent (r : Reading) : Type 0 where
  pub recent : r.signal.recent ≡ true
  pub zero : r.signal.percent ≡ 0
  pub registered : bad_start 0 r.registration none ≡ none
  pub on : is_off r.modem_state ≡ false

abbrev pub AllSilent : List (ℕ × Reading × Answers) → Type 0
AllSilent [] = Unit {0}
AllSilent ((now, r, a) ∷ ps) = IsSilent r × AllSilent ps

-- the polls of a list of readings
pub readings : List (ℕ × Reading × Answers) → List (ℕ × Option Reading × Answers)
readings [] = []
readings ((now, r, a) ∷ ps) = (now, some r, a) ∷ readings ps

not_bad :
    (now : ℕ) (reg : RegistrationState) (since : Option ℕ)
    → bad_start 0 reg none ≡ none
    → bad_start now reg since ≡ none
not_bad now reg none e = ground arith
not_bad now reg (some t) e = ground arith

-- A silent poll below the threshold counts and calls nothing.
silent-counts :
    (now : ℕ) (r : Reading) (a : Answers) (w : Watchdog)
    → IsSilent r
    → suc w.consecutive_zero_signal_polls < w.signal_zero_threshold
    → ((poll_once now (some r) a w).calls ≡ w.calls)
      × ((poll_once now (some r) a w).consecutive_zero_signal_polls
          ≡ suc w.consecutive_zero_signal_polls)
silent-counts now r a w s l =
    let (c, n) = poll_once-calls now (some r) a w in
    let b = not_bad now r.registration w.bad_state_since s.registered in
    ground (arith, c, n, b, s.recent, s.zero)

-- The silent poll that reaches the threshold resets the modem and counts anew.
silent-resets :
    (now : ℕ) (r : Reading) (a : Answers) (w : Watchdog)
    → IsSilent r
    → suc w.consecutive_zero_signal_polls ≡ w.signal_zero_threshold
    → ((poll_once now (some r) a w).calls ≡ (now, reset) ∷ w.calls)
      × ((poll_once now (some r) a w).consecutive_zero_signal_polls ≡ 0)
silent-resets now r a w s l =
    let (c, n) = poll_once-calls now (some r) a w in
    let b = not_bad now r.registration w.bad_state_since s.registered in
    ground (arith, c, n, b, s.recent, s.zero, s.on)

threshold-poll_once :
    (now : ℕ) (r : Option Reading) (a : Answers) (w : Watchdog)
    → (poll_once now r a w).signal_zero_threshold ≡ w.signal_zero_threshold
unfolding poll_once after_poll observe recover try_enable try_reset after_enable
threshold-poll_once now none a w = refl
threshold-poll_once now (some r) a w = ground arith

silent_run :
    (ps : List (ℕ × Reading × Answers)) (w : Watchdog)
    → AllSilent ps
    → w.consecutive_zero_signal_polls + length ps < w.signal_zero_threshold
    → ((polls (readings ps) w).calls ≡ w.calls)
      × ((polls (readings ps) w).consecutive_zero_signal_polls
          ≡ w.consecutive_zero_signal_polls + length ps)
      × ((polls (readings ps) w).signal_zero_threshold ≡ w.signal_zero_threshold)
unfolding polls readings
silent_run [] w s l = (refl, omega arith, refl)
silent_run ((now, r, a) ∷ ps) w s l =
    let (c, n) = silent-counts now r a w s.0 (omega arith) in
    let t = threshold-poll_once now (some r) a w in
    let (c', n', t') = silent_run ps (poll_once now (some r) a w) s.1 (omega (arith, l, n, t)) in
    (c' ∙ c, omega (arith, n', n), t' ∙ t)

polls-append :
    (ps : List (ℕ × Option Reading × Answers)) (now : ℕ) (r : Option Reading) (a : Answers)
    (w : Watchdog)
    → polls (ps ++ (now, r, a) ∷ []) w ≡ poll_once now r a (polls ps w)
unfolding polls
polls-append [] now r a w = refl
polls-append ((t, x, b) ∷ ps) now r a w = polls-append ps now r a (poll_once t x b w)

-- Polls in a row that read a fresh signal of zero, from a modem that is on and whose registration is
-- not denied, searching or unknown: as long as they are fewer than the threshold (with those counted
-- before) the modem is not called, and the one that reaches the threshold resets it, once, and
-- starts the count again.
pub zero_polls-reset :
    (ps : List (ℕ × Reading × Answers)) (now : ℕ) (r : Reading) (a : Answers) (w : Watchdog)
    → AllSilent ps
    → IsSilent r
    → w.consecutive_zero_signal_polls + length ps + 1 ≡ w.signal_zero_threshold
    → ((polls (readings ps) w).calls ≡ w.calls)
      × ((polls (readings ps ++ (now, some r, a) ∷ []) w).calls ≡ (now, reset) ∷ w.calls)
      × ((polls (readings ps ++ (now, some r, a) ∷ []) w).consecutive_zero_signal_polls ≡ 0)
zero_polls-reset ps now r a w all last l =
    let (c, n, t) = silent_run ps w all (omega (arith, l)) in
    let (d, m) = silent-resets now r a (polls (readings ps) w) last (omega (arith, l, n, t)) in
    rw (polls-append (readings ps) now (some r) a w) (c, d ∙ ap (λ x. (now, reset) ∷ x) c, m)
