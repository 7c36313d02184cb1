-- ===== src/Tests/ModemRuns.antt =====
-- Runs of the modem client's theorems, on a bus with one modem.
use sms_gateway_v.Base.{String, ◌≡◌, true, [], ◌∷◌, none, arith}
use sms_gateway_v.Exec.{Fault}
use sms_gateway_v.Exec.Raises.{is_fuelled}
use sms_gateway_v.Exec.Gives.{Returns}
use sms_gateway_v.Modem.Models.{DBusInt, IntOrText}
use sms_gateway_v.Modem.Bus.{Bus, answered, failed}
use sms_gateway_v.Modem.Keys.{AddedCallback}
use sms_gateway_v.Modem.Client.{modem_interface}
use sms_gateway_v.Modem.Client.Noted.{IsWatched}
use sms_gateway_v.Modem.Timestamps.{IsoFormat}
use sms_gateway_v.Modem.Reset.{wait_for_reset_reappear}
use sms_gateway_v.Modem.Reset.Terminates.{is_settled, wait_for_reset_reappear-settled}
use sms_gateway_v.Modem.Messages.{read_message, list_sms_paths}
use sms_gateway_v.Modem.Messages.Reads.{ReadAs, read_message-ReadAs}
use sms_gateway_v.Modem.Messages.Sorted.{IsSortedAnswer, list_sms_paths-sorted}
use sms_gateway_v.Modem.History.{
  connects, disconnects, watches, resets, client_call, client_run, new_client, client_run-IsWatched,
  client_call-fuelled,
}

abbrev modem_path : String
modem_path = "/org/freedesktop/ModemManager1/Modem/0"

-- Each call takes a microsecond.
instance abbrev one_modem : Bus
one_modem = record {
  takes = λ n. 1;
  connect = λ n. answered tt;
  connected = λ n. true;
  introspect = λ n path. answered tt;
  managed_objects = λ n. answered ((modem_path, modem_interface ∷ []) ∷ []);
  get_interface = λ n path name. answered tt;
  messages = λ n path. answered ("/SMS/2" ∷ "/SMS/1" ∷ []);
  delete = λ n path sms. answered tt;
  on_added = λ n path. answered tt;
  off_added = λ n path. answered tt;
  reset = λ n path. answered tt;
  enable = λ n path. answered tt;
  signal_quality = λ n path. failed Fault.operation "no signal";
  state = λ n path. failed Fault.operation "no state";
  registration_state = λ n path. failed Fault.operation "no registration";
  property = λ n path name. answered "hello";
  pdu_type = λ n path. answered (IntOrText.int (DBusInt.plus 1));
  on_properties_changed = λ n path. answered tt;
  off_properties_changed = λ n path. answered tt;
  text_changed = λ n path. 1;
}

instance abbrev no_dates : IsoFormat
no_dates = record { fromisoformat = λ text. none }

client_run_example : IsWatched (
    client_run
      (connects ∷ watches (AddedCallback.method 1 2) ∷ disconnects ∷ connects ∷ [])
      (new_client 5))
client_run_example =
    client_run-IsWatched (λ n. omega arith)
      (connects ∷ watches (AddedCallback.method 1 2) ∷ disconnects ∷ connects ∷ []) 5

client_call_example : is_fuelled (client_call (resets 2) (new_client 5)).0 ≡ true
client_call_example = client_call-fuelled (λ n. omega arith) (resets 2) (new_client 5)

wait_for_reset_example : is_settled (wait_for_reset_reappear 3 modem_path (new_client 5)).0 ≡ true
wait_for_reset_example = wait_for_reset_reappear-settled 3 modem_path (new_client 5)

read_message_example :
    (is_fuelled (read_message 3 "/SMS/1" (client_run (connects ∷ []) (new_client 5))).0 ≡ true)
    × Returns
        (ReadAs 3 "/SMS/1" (client_run (connects ∷ []) (new_client 5)).now)
        (read_message 3 "/SMS/1" (client_run (connects ∷ []) (new_client 5))).0
        (read_message 3 "/SMS/1" (client_run (connects ∷ []) (new_client 5))).1
read_message_example =
    read_message-ReadAs (λ n. omega arith) 3 "/SMS/1" (client_run (connects ∷ []) (new_client 5))

list_sms_paths_example :
    Returns IsSortedAnswer
      (list_sms_paths (client_run (connects ∷ []) (new_client 5))).0
      (list_sms_paths (client_run (connects ∷ []) (new_client 5))).1
list_sms_paths_example = list_sms_paths-sorted (client_run (connects ∷ []) (new_client 5))
