-- ===== src/App/Factory/Stopped.antt =====
-- relay/factory.py: the relay that `build_relay` makes is stopped.
use sms_gateway_v.Base.{◌≡◌, refl, List, if_holds, ◌==◌}
use sms_gateway_v.Exec.{Result, ok, raised}
use sms_gateway_v.Queue.Dedup.{Row}
use sms_gateway_v.Queue.State.{Queue, Dirs}
use sms_gateway_v.Telegram.Client.{Client}
use sms_gateway_v.Metrics.{Metrics}
use sms_gateway_v.Relay.State.{RelayStatus}
use sms_gateway_v.Config.Settings.{Settings}
use sms_gateway_v.App.Factory.{Built, with_client, with_queue, build_relay, wired, new_relay}

module _ {Text : Type 0} where
  abbrev pub IsStopped : Result (Built Text) → Type 0
  IsStopped (raised e) = Unit {0}
  IsStopped (ok built) = built.relay.status ≡ RelayStatus.stopped

  client-IsStopped :
      (settings : Settings) (metrics : Metrics) (queue : Queue Text) (r : Result Client)
      → IsStopped (with_client settings metrics queue r)
  unfolding with_client wired new_relay
  client-IsStopped settings metrics queue (raised e) = tt
  client-IsStopped settings metrics queue (ok telegram) = refl

  queue-IsStopped :
      (settings : Settings) (metrics : Metrics) (r : Result (Queue Text))
      → IsStopped (with_queue settings metrics r)
  unfolding with_queue
  queue-IsStopped settings metrics (raised e) = tt
  queue-IsStopped settings metrics (ok queue) = client-IsStopped settings metrics queue _

  pub build_relay-IsStopped :
      (dirs : Dirs Text) (rows : List Row) (settings : Settings) (metrics : Metrics)
      → IsStopped (build_relay dirs rows settings metrics)
  unfolding build_relay
  build_relay-IsStopped dirs rows settings metrics =
      if_holds IsStopped (settings.telegram_bot_token == "") tt (
        if_holds IsStopped (settings.telegram_chat_id == "") tt
          (queue-IsStopped settings metrics _))
