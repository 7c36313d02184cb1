-- ===== src/Tests/RelayRuns.antt =====
-- Runs of the relay's theorems.
use sms_gateway_v.Base.{
  ℕ, ◌+◌, ◌≤◌, ◌<◌, ◌≡◌, refl, ◌⊎◌, true, false, ◌&&◌, Option, none, some, List, [], ◌∷◌, ◌++◌,
  length, if◌then◌else◌, arith, ◌==◌,
}
use sms_gateway_v.Exec.{Exec, ok, raised, modem, modem_error}
use sms_gateway_v.Queue.Models.{IncomingSms, QueueItem}
use sms_gateway_v.Queue.Enqueue.Once.{IsKnown}
use sms_gateway_v.Queue.Enqueue.Stores.{new_hash}
use sms_gateway_v.Modem.Models.{denied, home}
use sms_gateway_v.Metrics.{initial}
use sms_gateway_v.Duration.{all_units, split_from}
use sms_gateway_v.Duration.Parts.{worth, grain, split_from-exact}
use sms_gateway_v.Telegram.Message.{chars}
use sms_gateway_v.Relay.State.{stopped, running, Modem, Relay}
use sms_gateway_v.Relay.Messages.{process_sms, retry_undecoded_sms_text, drain_existing_messages}
use sms_gateway_v.Relay.Messages.Undecoded.{
  first_decoded, last_of, retried, retry_undecoded_sms_text-retried,
}
use sms_gateway_v.Relay.Messages.Kept.{process_sms-kept}
use sms_gateway_v.Relay.Lifecycle.{start, stop, is_idle}
use sms_gateway_v.Relay.Lifecycle.States.{noted_error, Started, start-Started, stop-stopped}
use sms_gateway_v.Relay.Watchdog.{Watchdog, Reading, Answers, poll_once, reset}
use sms_gateway_v.Relay.Watchdog.Spacing.{polls, enables, Spaced, polls-Spaced}
use sms_gateway_v.Relay.Watchdog.Calls.{call_of, called, counters, poll_once-calls}
use sms_gateway_v.Relay.Watchdog.Silence.{IsSilent, readings, zero_polls-reset}
use sms_gateway_v.Relay.Heartbeat.{degradation_reasons, format_title, heartbeat_message}
use sms_gateway_v.Relay.Reports.{poll_and_report, state}
use sms_gateway_v.Relay.Reports.Heartbeats.{is_registered, heartbeat-poll}
use sms_gateway_v.Tests.Fixtures.{item_codec, constant_hashing, hello, opened, relay_on, phone}

process_sms_example :
    ((process_sms 700 "ab" phone true hello (relay_on running opened)).1.deleted ≡ [])
    ⊎ (((process_sms 700 "ab" phone true hello (relay_on running opened)).1.deleted ≡ "/SMS/1" ∷ [])
        × IsKnown
            (new_hash opened 700 "ab" hello)
            (process_sms 700 "ab" phone true hello (relay_on running opened)).1.worker.queue)
process_sms_example = process_sms-kept 700 "ab" phone true hello (relay_on running opened)

-- the same modem while it has no text of the message
mute : Modem
mute = record phone { read_message = λ path. ok none }

attempts : List (ℕ × Modem)
attempts = (800, mute) ∷ (900, phone) ∷ []

retry_example :
    retry_undecoded_sms_text "ab" (700, mute) attempts "/SMS/1" (relay_on running opened)
    ≡ retried "ab" "/SMS/1"
        (last_of (700, mute) attempts)
        (first_decoded "/SMS/1" attempts)
        (relay_on running opened)
retry_example =
    retry_undecoded_sms_text-retried "ab" (700, mute) attempts "/SMS/1" (relay_on running opened)

later : IncomingSms
later = record hello { object_path = "/SMS/2"; timestamp = none }

-- a modem with two messages, the later one listed first
abbrev full : Modem
full = record phone {
  list_sms_paths = ok ("/SMS/2" ∷ "/SMS/1" ∷ []);
  read_message = λ path. ok (some (if path == "/SMS/1" then hello else later));
}

abbrev drained : Exec (Relay QueueItem) (Unit {0})
drained = drain_existing_messages 700 (λ sms. "ab") full

start_example : Started 700 (start 700 (λ sms. "ab") phone (relay_on stopped opened))
start_example = start-Started 700 (λ sms. "ab") phone (relay_on stopped opened) refl

-- a modem that does not disconnect
stuck : Modem
stuck = record phone { disconnect = raised (modem modem_error "busy") }

stop_example :
    ((stop stuck (relay_on running opened)).0 ≡ stuck.disconnect)
    × ((stop stuck (relay_on running opened)).1.last_error ≡ noted_error stuck.disconnect none)
    × ((stop stuck (relay_on running opened)).1.status ≡ stopped)
    × ((stop stuck (relay_on running opened)).1.worker_task ≡ false)
    × ((stop stuck (relay_on running opened)).1.started_at ≡ none)
    × ((stop stuck (relay_on running opened)).1.pending_text_retries ≡ [])
    × ((stop stuck (relay_on running opened)).1.worker.stop_event ≡ true)
    × ((stop stuck (relay_on running opened)).1.worker.queue.initialized ≡ false)
    × ((stop stuck (relay_on running opened)).1.worker.queue.dedup.connected ≡ false)
unfolding is_idle
stop_example = stop-stopped stuck (relay_on running opened) refl

abbrev watchdog : Watchdog
watchdog = record {
  signal_zero_threshold = 2;
  bad_state_minutes = 5;
  enable_cooldown = 120_000_000;
  enable_frozen_cooldown = 1_800_000_000;
  last_enable_attempt_at = none;
  consecutive_zero_signal_polls = 0;
  bad_state_since = none;
  calls = [];
  health = none;
  metrics = initial;
}

-- no signal, in a state that enabling recovers from
abbrev silent : Reading
silent = record {
  signal = record { percent = 0; recent = true };
  registration = denied;
  modem_state = "disabled";
  operator_name = none;
}

abbrev frozen : Answers
frozen = record { reset_error = none; enable_error = some "Invalid transition" }

abbrev minutes : List (ℕ × Option Reading × Answers)
minutes =
    (60_000_000, some silent, frozen)
    ∷ (120_000_000, some silent, frozen)
    ∷ (180_000_000, none, frozen)
    ∷ []

polls-Spaced_example :
    Spaced (polls minutes watchdog).enable_cooldown (enables (polls minutes watchdog).calls)
polls-Spaced_example = polls-Spaced minutes watchdog refl (omega arith)

-- no signal, from a modem that is on
abbrev unheard : Reading
unheard = record {
  signal = record { percent = 0; recent = true };
  registration = home;
  modem_state = "registered";
  operator_name = none;
}

unheard-IsSilent : IsSilent unheard
unheard-IsSilent = record { recent = refl; zero = refl; registered = refl; on = refl }

abbrev first_minute : List (ℕ × Reading × Answers)
first_minute = (60_000_000, unheard, frozen) ∷ []

zero_polls_example :
    ((polls (readings first_minute) watchdog).calls ≡ [])
    × ((polls (readings first_minute ++ (120_000_000, some unheard, frozen) ∷ []) watchdog).calls
        ≡ (120_000_000, reset) ∷ [])
    × ((polls
          (readings first_minute ++ (120_000_000, some unheard, frozen) ∷ [])
          watchdog).consecutive_zero_signal_polls
        ≡ 0)
zero_polls_example =
    zero_polls-reset first_minute 120_000_000 unheard frozen watchdog (unheard-IsSilent, tt)
      unheard-IsSilent refl

poll_once_example :
    ((poll_once 60_000_000 (some silent) frozen watchdog).calls
      ≡ called 60_000_000 (call_of 60_000_000 (some silent) watchdog) [])
    × ((
      (poll_once 60_000_000 (some silent) frozen watchdog).consecutive_zero_signal_polls,
      (poll_once 60_000_000 (some silent) frozen watchdog).bad_state_since,
    )
        ≡ counters 60_000_000 (some silent) watchdog)
poll_once_example = poll_once-calls 60_000_000 (some silent) frozen watchdog

abbrev registered : Reading
registered = record {
  signal = record { percent = 80; recent = true };
  registration = home;
  modem_state = "registered";
  operator_name = none;
}

-- the relay after a poll
abbrev polled : Relay QueueItem
polled = (poll_and_report 60_000_000 (some registered) frozen watchdog (relay_on running opened)).1

heartbeat_poll_example :
    ((heartbeat_message 700 "chat" (state (λ e. []) polled)).disable_notification
      ≡ is_registered (some registered) && true)
    × (is_registered (some registered) && true ≡ true
        → format_title (state (λ e. []) polled) (degradation_reasons (state (λ e. []) polled))
          ≡ chars "✅ SMS Gateway")
heartbeat_poll_example =
    heartbeat-poll 60_000_000 700 (λ e. []) "chat" (some registered) frozen watchdog
      (relay_on running opened)

split_example :
    (length (split_from all_units 97_000 []) ≤ 2)
    × (worth (split_from all_units 97_000 []) ≤ 97_000)
    × (97_000 < worth (split_from all_units 97_000 []) + grain (split_from all_units 97_000 []))
split_example = split_from-exact 97_000
