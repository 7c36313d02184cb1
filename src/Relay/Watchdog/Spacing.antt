-- ===== src/Relay/Watchdog/Spacing.antt =====
-- relay/watchdog.py over a whole run: how often the modem is reset and enabled.
use sms_gateway_v.Base.{
  ℕ, ◌+◌, ◌≤◌, ◌≡◌, refl, String, false, Option, none, some, List, [], ◌∷◌, arith, Bool-cases, inl,
  inr,
}
use sms_gateway_v.Relay.Watchdog.{
  Watchdog, Reading, Answers, Action, enable, reset, poll_once, observe, after_poll, recover,
  try_enable, try_reset, is_cooling, after_enable, is_triggered, is_enable_recoverable,
  is_invalid_transition_error,
}

-- A run of polls, each at its time with what it reads and the answers it gets.
unfoldable pub polls : List (ℕ × Option Reading × Answers) → Watchdog → Watchdog
polls [] w = w
polls ((now, r, a) ∷ ps) w = polls ps (poll_once now r a w)

-- the times of the `enable` calls, the last first
pub enables : List (ℕ × Action) → List ℕ
enables [] = []
enables ((now, reset) ∷ cs) = enables cs
enables ((now, enable) ∷ cs) = now ∷ enables cs

-- `d` has passed between each time and the one before
abbrev pub Spaced : ℕ → List ℕ → Type 0
Spaced d [] = Unit {0}
Spaced d (t ∷ []) = Unit {0}
Spaced d (t ∷ s ∷ ts) = (s + d ≤ t) × Spaced d (s ∷ ts)

-- The newest call is no later than the time that the cooldown counts from.
abbrev pub Covered : List ℕ → Option ℕ → Type 0
Covered [] last = Unit {0}
Covered (t ∷ ts) none = ⊥
Covered (t ∷ ts) (some last) = t ≤ last

pub record IsSpaced (w : Watchdog) : Type 0 where
  pub spaced : Spaced w.enable_cooldown (enables w.calls)
  pub covered : Covered (enables w.calls) w.last_enable_attempt_at
  pub deferring : w.enable_cooldown ≤ w.enable_frozen_cooldown

add_enable :
    (d now : ℕ) (ts : List ℕ) (last : Option ℕ)
    → Spaced d ts
    → Covered ts last
    → is_cooling now d last ≡ false
    → Spaced d (now ∷ ts)
unfolding is_cooling
add_enable d now [] last s c e = tt
add_enable d now (t ∷ ts) none s c e = absurd c
add_enable d now (t ∷ ts) (some last) s c e = (ground arith, s)

after_enable-IsSpaced :
    (now : ℕ) (error : Option String) (w : Watchdog) (cs : List ℕ)
    → enables w.calls ≡ now ∷ cs
    → w.last_enable_attempt_at ≡ some now
    → IsSpaced w
    → IsSpaced (after_enable now error w)
unfolding after_enable
after_enable-IsSpaced now none w cs e l s = record {
  spaced = s.spaced;
  covered = s.covered;
  deferring = s.deferring;
}
after_enable-IsSpaced now (some error) w cs e l s =
    elim (Bool-cases (is_invalid_transition_error error)) [
      | inl b ↦ rw b (record {
        spaced = s.spaced;
        covered = rw e (omega (arith, s.deferring));
        deferring = s.deferring;
      })
      | inr b ↦ rw b s
    ]

try_enable-IsSpaced :
    (now : ℕ) (a : Answers) (w : Watchdog) → IsSpaced w → IsSpaced (try_enable now a w)
unfolding try_enable enables
try_enable-IsSpaced now a w s =
    elim (Bool-cases (is_cooling now w.enable_cooldown w.last_enable_attempt_at)) [
      | inl b ↦ rw b s
      | inr b ↦ rw b (
          after_enable-IsSpaced now a.enable_error _ (enables w.calls) refl refl (record {
            spaced =
                add_enable w.enable_cooldown now (enables w.calls) w.last_enable_attempt_at s.spaced
                  s.covered b;
            covered = omega arith;
            deferring = s.deferring;
          }))
    ]

recover-IsSpaced :
    (now : ℕ) (r : Reading) (a : Answers) (w : Watchdog) → IsSpaced w → IsSpaced (recover now r a w)
unfolding recover try_reset enables
recover-IsSpaced now r a w s = elim (Bool-cases (is_enable_recoverable r.modem_state)) [
  | inl b ↦ rw b (try_enable-IsSpaced now a w s)
  | inr b ↦ rw b (record { spaced = s.spaced; covered = s.covered; deferring = s.deferring })
]

observe-IsSpaced : (now : ℕ) (r : Reading) (w : Watchdog) → IsSpaced w → IsSpaced (observe now r w)
unfolding observe
observe-IsSpaced now r w s = record {
  spaced = s.spaced;
  covered = s.covered;
  deferring = s.deferring;
}

poll_once-IsSpaced :
    (now : ℕ) (r : Option Reading) (a : Answers) (w : Watchdog)
    → IsSpaced w
    → IsSpaced (poll_once now r a w)
unfolding poll_once after_poll
poll_once-IsSpaced now none a w s = record {
  spaced = s.spaced;
  covered = s.covered;
  deferring = s.deferring;
}
poll_once-IsSpaced now (some r) a w s = elim (Bool-cases (is_triggered now (observe now r w))) [
  | inl b ↦
      let s' = recover-IsSpaced now r a (observe now r w) (observe-IsSpaced now r w s) in
      rw b (record { spaced = s'.spaced; covered = s'.covered; deferring = s'.deferring })
  | inr b ↦ rw b (observe-IsSpaced now r w s)
]

initial-IsSpaced :
    (w : Watchdog) → w.calls ≡ [] → w.enable_cooldown ≤ w.enable_frozen_cooldown → IsSpaced w
unfolding enables
initial-IsSpaced w e d = record { spaced = rw e tt; covered = rw e tt; deferring = d }

polls-IsSpaced :
    (ps : List (ℕ × Option Reading × Answers)) (w : Watchdog) → IsSpaced w → IsSpaced (polls ps w)
unfolding polls
polls-IsSpaced [] w s = s
polls-IsSpaced ((now, r, a) ∷ ps) w s =
    polls-IsSpaced ps (poll_once now r a w) (poll_once-IsSpaced now r a w s)

-- In any run of polls from a start with no calls, the modem is enabled at most once in each
-- cooldown, whatever the polls read and however the calls end, if the cooldown after an invalid
-- transition is no shorter than the usual one.
pub polls-Spaced :
    (ps : List (ℕ × Option Reading × Answers)) (w : Watchdog)
    → w.calls ≡ []
    → w.enable_cooldown ≤ w.enable_frozen_cooldown
    → Spaced (polls ps w).enable_cooldown (enables (polls ps w).calls)
polls-Spaced ps w e d = (polls-IsSpaced ps w (initial-IsSpaced w e d)).spaced
