-- ===== src/Tests/AppRuns.antt =====
-- Runs of the theorems on the settings and the application.
use sms_gateway_v.Base.{◌≡◌, refl, true, some, [], ◌∷◌}
use sms_gateway_v.Config.Settings.{Settings, default_settings}
use sms_gateway_v.Config.Schedule.{schedule_of}
use sms_gateway_v.Config.Schedule.Printed.{print, all_positive, schedule_of-print}
use sms_gateway_v.App.Lifespan.{TaskEnd, TaskEnds, startup_relay, lifespan}
use sms_gateway_v.App.Lifespan.Closed.{Ended, lifespan-Ended}
use sms_gateway_v.Exec.{validation_error}
use sms_gateway_v.Tests.Fixtures.{item_codec, constant_hashing, no_files, phone}

schedule_of_example : schedule_of (print (5 ∷ 30 ∷ [])) ≡ some (5 ∷ 30 ∷ [])
unfolding all_positive
schedule_of_example = schedule_of-print 5 (30 ∷ []) refl

abbrev enabled : Settings
enabled = record default_settings {
  relay_enabled = true;
  telegram_bot_token = "token";
  telegram_chat_id = "chat";
}

-- The watchdog has failed.
abbrev ends : TaskEnds
ends = record {
  gauge = TaskEnd.in_time;
  cleanup = TaskEnd.cancelled;
  watchdog = TaskEnd.fails validation_error;
  heartbeat = TaskEnd.in_time;
}

lifespan_example :
    Ended phone ends
      (λ s. s)
      (startup_relay no_files [] enabled 7 (λ m. "ab") phone)
      (lifespan no_files [] enabled 7 (λ m. "ab") phone ends (λ s. s))
lifespan_example = lifespan-Ended no_files [] enabled 7 (λ m. "ab") phone ends (λ s. s) refl
