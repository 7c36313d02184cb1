-- ===== src/Modem/History.antt =====
-- modem/client.py: any sequence of calls of the client's methods.
use sms_gateway_v.Base.{
  inl, ℕ, ◌+◌, ◌≤◌, ◌≡◌, refl, String, true, false, none, List, [], ◌∷◌, arith,
}
use sms_gateway_v.Exec.{Exec, pure, ◌>>=◌}
use sms_gateway_v.Exec.Raises.{is_fuelled}
use sms_gateway_v.Exec.Runs.{Runs, Runs-bind, Runs-pure}
use sms_gateway_v.Modem.Bus.{Bus}
use sms_gateway_v.Modem.Keys.{AddedCallback}
use sms_gateway_v.Modem.Client.{Client}
use sms_gateway_v.Modem.Client.Noted.{IsWatched}
use sms_gateway_v.Modem.Watchers.{connect, disconnect, watch_added}
use sms_gateway_v.Modem.Watchers.Kept.{StableLink, Runs-connect, Runs-watch_added}
use sms_gateway_v.Modem.Watchers.Noted.{IsWatched-StableLink}
use sms_gateway_v.Modem.Watchers.Clock.{Since-StableLink}
use sms_gateway_v.Modem.Control.{
  get_modem_info, get_signal_quality, get_registration_state, get_modem_state, get_operator_name,
  enable,
}
use sms_gateway_v.Modem.Control.Kept.{
  Runs-get_modem_info, Runs-get_signal_quality, Runs-get_registration_state, Runs-get_modem_state,
  Runs-get_operator_name, Runs-enable,
}
use sms_gateway_v.Modem.Reset.{reset}
use sms_gateway_v.Modem.Reset.Kept.{Runs-reset}
use sms_gateway_v.Modem.Timestamps.{IsoFormat}
use sms_gateway_v.Modem.Messages.{list_messages, list_sms_paths, read_message, delete_message}
use sms_gateway_v.Modem.Messages.Kept.{
  StableText, Runs-list_messages, Runs-list_sms_paths, Runs-read_message, Runs-delete_message,
}
use sms_gateway_v.Modem.Messages.Waits.{Runs-wait_for_sms_text}

-- ModemManagerClient.__init__
abbrev pub new_client : ℕ → Client
new_client now = record {
  has_bus = false;
  modem_path = none;
  added_callbacks = [];
  added_watch_keys = [];
  added_watch_handlers = [];
  added_watch_resubscribe_required = false;
  listening = [];
  reported = [];
  calls = 0;
  now = now;
}

pub data ClientCall : Type 0 where
  connects disconnects reads_info reads_signal reads_registration reads_state reads_operator enables
        lists lists_paths :
      ClientCall
  watches : AddedCallback → ClientCall
  -- with the timeout of the wait
  resets : ℕ → ClientCall
  reads_message : ℕ → String → ClientCall
  deletes : String → ClientCall

-- a method whose value is not looked at
abbrev ignoring : {A : Type 0} → Exec Client A → Exec Client Unit
ignoring m = m >>= λ a. pure tt

module _ ⦃bus : Bus⦄ ⦃iso : IsoFormat⦄ where
  pub client_call : ClientCall → Exec Client Unit
  client_call connects = connect
  client_call disconnects = disconnect
  client_call reads_info = ignoring get_modem_info
  client_call reads_signal = ignoring get_signal_quality
  client_call reads_registration = ignoring get_registration_state
  client_call reads_state = ignoring get_modem_state
  client_call reads_operator = ignoring get_operator_name
  client_call enables = enable
  client_call lists = ignoring list_messages
  client_call lists_paths = ignoring list_sms_paths
  client_call (watches callback) = watch_added callback
  client_call (resets timeout) = reset timeout
  client_call (reads_message timeout path) = ignoring (read_message timeout path)
  client_call (deletes path) = delete_message path

  -- One call after the other, whether it raises or not.
  pub client_run : List ClientCall → Client → Client
  client_run [] c = c
  client_run (call ∷ calls) c = client_run calls (client_call call c).1

module _ ⦃bus : Bus⦄ ⦃iso : IsoFormat⦄ (takes_time : (n : ℕ) → 1 ≤ bus.takes n)
    {I : Client → Type 0} (l : StableLink I)
    (passed : (c : Client) (n t : ℕ) → I c → I (record c { calls = n; now = c.now + t }))
    (reports : (c : Client) (paths : List String) → I c → I (record c { reported = paths })) where
  text : StableText I
  text = record { link = l; reports = reports; waited = Runs-wait_for_sms_text l passed takes_time }

  Runs-ignoring : {A : Type 0} (m : Exec Client A) → Runs I m → Runs I (ignoring m)
  Runs-ignoring m k = Runs-bind m _ k (λ a. Runs-pure tt)

  client_call-Runs : (call : ClientCall) → Runs I (client_call call)
  unfolding client_call
  client_call-Runs connects = Runs-connect l
  client_call-Runs disconnects = l.closed
  client_call-Runs reads_info = Runs-ignoring _ (Runs-get_modem_info l.stable l.added)
  client_call-Runs reads_signal = Runs-ignoring _ (Runs-get_signal_quality l.stable l.added)
  client_call-Runs reads_registration =
      Runs-ignoring _ (Runs-get_registration_state l.stable l.added)
  client_call-Runs reads_state = Runs-ignoring _ (Runs-get_modem_state l.stable l.added)
  client_call-Runs reads_operator = Runs-ignoring _ (Runs-get_operator_name l.stable l.added)
  client_call-Runs enables = Runs-enable l.stable l.added
  client_call-Runs lists = Runs-ignoring _ (Runs-list_messages l.stable l.added)
  client_call-Runs lists_paths = Runs-ignoring _ (Runs-list_sms_paths l.stable l.added)
  client_call-Runs (watches callback) = Runs-watch_added l callback
  client_call-Runs (resets timeout) = Runs-reset l passed timeout
  client_call-Runs (reads_message timeout path) =
      Runs-ignoring _ (Runs-read_message text timeout path)
  client_call-Runs (deletes path) = Runs-delete_message l.stable l.added path

module _ ⦃bus : Bus⦄ ⦃iso : IsoFormat⦄ (takes_time : (n : ℕ) → 1 ≤ bus.takes n) where
  call-IsWatched : (call : ClientCall) → Runs IsWatched (client_call call)
  call-IsWatched =
      client_call-Runs takes_time IsWatched-StableLink
        (λ c n t i. record { keys = i.keys; listened = i.listened; heard = i.heard; once = i.once })
        (λ c paths i. record {
          keys = i.keys;
          listened = i.listened;
          heard = i.heard;
          once = i.once;
        })

  client_run-kept :
      (calls : List ClientCall) (c : Client) → IsWatched c → IsWatched (client_run calls c)
  unfolding client_run
  client_run-kept [] c i = i
  client_run-kept (call ∷ calls) c i =
      client_run-kept calls (client_call call c).1 ((call-IsWatched call).keeps c i)

  -- After any calls of a new client, failing or not and whatever D-Bus answers, the set of watch
  -- keys has exactly the keys of the table of handlers, no watcher is noted twice, and each watcher
  -- that is noted is one that D-Bus calls; one that D-Bus calls is noted too, unless D-Bus fails
  -- to remove it at some call. A call of D-Bus is to take some time.
  pub client_run-IsWatched :
      (calls : List ClientCall) (now : ℕ) → IsWatched (client_run calls (new_client now))
  client_run-IsWatched calls now =
      client_run-kept calls (new_client now)
        (record { keys = λ k. refl; listened = λ k e. e; heard = λ k e. inl e; once = tt })

  -- Each method of the client ends, from any state and whatever D-Bus answers, in a value or in an
  -- exception of the code, provided that a call of D-Bus takes some time.
  pub client_call-fuelled :
      (call : ClientCall) (c : Client) → is_fuelled (client_call call c).0 ≡ true
  client_call-fuelled call c =
      (client_call-Runs takes_time (Since-StableLink c.now) (λ c n t i. omega (arith, i))
          (λ c paths i. i) call).fuelled
        c (omega arith)
