-- ===== src/Modem/Messages.antt =====
-- modem/client.py: the messages of a modem, which are listed, read and deleted.
pub mod Kept
pub mod Waits
pub mod Reads
pub mod Sorted
use Prim.Native.String.{◌++◌ as append}
use sms_gateway_v.Base.{
  ℕ, zero, suc, ◌+◌, ◌-◌, String, Bool, true, false, not, Option, none, some, List, [], ◌∷◌, min,
  ltb, ◌==◌, contains, if◌then◌else◌,
}
use mathlib.Core.Option
use sms_gateway_v.Exec.{
  Exec, Exception, Fault, modem, ok, modem_error, unavailable, unavailable_by, read_missing,
  read_skipped, delete_failed, bus_error, out_of_fuel, pure, raise, gets, modify, catch, finally,
  ◌>>=◌, ◌>>◌,
}
use sms_gateway_v.Queue.Models.{DateTime, IncomingSms}
use sms_gateway_v.Telegram.Message.{chars}
use sms_gateway_v.Relay.Messages.Order.{path_index, path_le, index_then, sort_messages}
use sms_gateway_v.Modem.Models.{decode_pdu_type, is_inbound}
use sms_gateway_v.Modem.Paths.{sort_paths}
use sms_gateway_v.Modem.Bus.{Bus, Reply}
use sms_gateway_v.Modem.Client.{
  Client, words, call, get_proxy_object, get_proxy_interface, is_unknown_object,
}
use sms_gateway_v.Modem.Watchers.{ensure_modem_path, get_messaging_interface}
use sms_gateway_v.Modem.Control.{read_required, read_optional}
use sms_gateway_v.Modem.Timestamps.{IsoFormat, parse_timestamp}

abbrev pub sms_interface : String
sms_interface = "org.freedesktop.ModemManager1.Sms"

abbrev pub dbus_properties_interface : String
dbus_properties_interface = "org.freedesktop.DBus.Properties"

-- `poll_interval` of _wait_for_sms_text
abbrev pub text_poll_interval : ℕ
text_poll_interval = 500_000

-- `except ModemManagerUnavailable`
pub is_unavailable : Exception → Bool
is_unavailable (modem unavailable message) = true
is_unavailable (modem (unavailable_by fault) message) = true
is_unavailable e = false

pub without_path : String → List String → List String
without_path p [] = []
without_path p (q ∷ qs) = if p == q then qs else q ∷ without_path p qs

module _ ⦃bus : Bus⦄ where
  -- _get_sms_interface
  pub get_sms_interface : String → Exec Client Unit
  get_sms_interface sms_path = do
    sms_path ← get_proxy_object "SMS object" sms_path
    get_proxy_interface "SMS object" sms_path sms_interface

  -- _get_dbus_properties_interface
  get_dbus_properties_interface : String → Exec Client Unit
  get_dbus_properties_interface object_path = do
    object_path ← get_proxy_object "D-Bus properties object" object_path
    get_proxy_interface "D-Bus properties object" object_path dbus_properties_interface

  pub read_pdu_type : String → Exec Client String
  read_pdu_type sms_path = do
    value ← read_required "PduType" (λ n. bus.pdu_type n sms_path)
    pure (decode_pdu_type value)

  pub read_text : String → Exec Client String
  read_text sms_path = read_required "Text" (λ n. bus.property n sms_path "Text")

  -- list_sms_paths
  unfoldable pub list_sms_paths : Exec Client (List String)
  list_sms_paths = do
    modem_path ← ensure_modem_path
    modem_path ← get_messaging_interface modem_path
    sms_paths ← read_required "Messages" (λ n. bus.messages n modem_path)
    pure (sort_paths sms_paths)

  -- ModemManagerClient.delete_message
  unfoldable pub delete_message : String → Exec Client Unit
  delete_message sms_path = do
    modem_path ← ensure_modem_path
    modem_path ← get_messaging_interface modem_path
    call
        (λ fault cause.
          modem delete_failed (append (append (words "failed to delete SMS" sms_path) ": ") cause))
        (λ n. bus.delete n modem_path sms_path)

  -- `wait_for(text_changed.wait(), timeout)`: until the signal, if the changes are reported
  wait_for_change : Bool → String → ℕ → Exec Client Unit
  wait_for_change reports sms_path timeout c =
      let slept = if reports then min (bus.text_changed c.calls sms_path) timeout else timeout in
      (ok tt, record c { calls = suc c.calls; now = c.now + slept })

  -- the loop of _wait_for_sms_text, on fuel
  wait_for_text_from : ℕ → Bool → ℕ → String → Exec Client String
  unfolding wait_for_change read_text
  wait_for_text_from zero reports deadline sms_path = raise out_of_fuel
  wait_for_text_from (suc fuel) reports deadline sms_path =
      let again = wait_for_text_from fuel reports deadline sms_path in
      do
        in_time ← gets (λ c. ltb c.now deadline)
        (if in_time
            then (do
              remaining ← gets (λ c. deadline - c.now)
              wait_for_change reports sms_path (min text_poll_interval remaining)
              text ← read_text sms_path
              (if text == "" then again else pure text))
            else pure "")

  -- _wait_for_sms_text
  unfoldable pub wait_for_sms_text : Bool → ℕ → String → Exec Client String
  unfolding wait_for_text_from
  wait_for_sms_text reports timeout sms_path = do
    deadline ← gets (λ c. c.now + timeout)
    wait_for_text_from (suc timeout) reports deadline sms_path

  text_or_wait : Bool → ℕ → String → Exec Client String
  unfolding read_text
  text_or_wait reports timeout sms_path = do
    text ← read_text sms_path
    (if text == "" then wait_for_sms_text reports timeout sms_path else pure text)

  pub on_properties_changed : String → Exec Client Unit
  on_properties_changed sms_path = do
    call (λ fault cause. bus_error fault) (λ n. bus.on_properties_changed n sms_path)
    modify (λ c. record c { reported = sms_path ∷ c.reported })

  pub off_properties_changed : String → Exec Client Unit
  off_properties_changed sms_path = do
    call (λ fault cause. bus_error fault) (λ n. bus.off_properties_changed n sms_path)
    modify (λ c. record c { reported = without_path sms_path c.reported })

  -- whether the properties interface is there
  pub has_properties : String → Exec Client Bool
  unfolding get_dbus_properties_interface is_unavailable
  has_properties sms_path =
      catch (do get_dbus_properties_interface sms_path; pure true)
        (λ e. if is_unavailable e then pure false else raise e)

  delayed_text : ℕ → String → Bool → Exec Client String
  unfolding text_or_wait on_properties_changed off_properties_changed
  delayed_text timeout sms_path false = text_or_wait false timeout sms_path
  delayed_text timeout sms_path true = do
    on_properties_changed sms_path
    finally (text_or_wait true timeout sms_path) (off_properties_changed sms_path)

module _ ⦃bus : Bus⦄ ⦃iso : IsoFormat⦄ where
  -- the `IncomingSms` with the rest of its properties
  rest_of_sms : String → String → String → Exec Client IncomingSms
  rest_of_sms sms_path pdu_type text = do
    number ← read_required "Number" (λ n. bus.property n sms_path "Number")
    timestamp ← read_optional "Timestamp" (λ n. bus.property n sms_path "Timestamp")
    pure (record {
      object_path = sms_path;
      number = number;
      text = text;
      timestamp = parse_timestamp (Option.map chars timestamp);
      pdu_type = pdu_type;
    })

  -- list_messages reads the number first
  listed_sms : String → String → Exec Client IncomingSms
  listed_sms sms_path pdu_type = do
    number ← read_required "Number" (λ n. bus.property n sms_path "Number")
    text ← read_required "Text" (λ n. bus.property n sms_path "Text")
    timestamp ← read_optional "Timestamp" (λ n. bus.property n sms_path "Timestamp")
    pure (record {
      object_path = sms_path;
      number = number;
      text = text;
      timestamp = parse_timestamp (Option.map chars timestamp);
      pdu_type = pdu_type;
    })

  read_listed : List String → Exec Client (List IncomingSms)
  unfolding get_sms_interface read_pdu_type listed_sms is_inbound
  read_listed [] = pure []
  read_listed (sms_path ∷ paths) =
      let rest = read_listed paths in
      do
        get_sms_interface sms_path
        pdu_type ← read_pdu_type sms_path
        (if is_inbound pdu_type
            then (do
              message ← listed_sms sms_path pdu_type
              messages ← rest
              pure (message ∷ messages))
            else rest)

  -- list_messages
  unfoldable pub list_messages : Exec Client (List IncomingSms)
  unfolding read_listed
  list_messages = do
    modem_path ← ensure_modem_path
    modem_path ← get_messaging_interface modem_path
    sms_paths ← read_required "Messages" (λ n. bus.messages n modem_path)
    messages ← read_listed sms_paths
    pure (sort_messages messages)

  read_with_text : String → String → String → Exec Client (Option IncomingSms)
  unfolding rest_of_sms
  read_with_text sms_path pdu_type text =
      if text == ""
      then pure none
      else (do message ← rest_of_sms sms_path pdu_type text; pure (some message))

  read_inbound : ℕ → String → String → Exec Client (Option IncomingSms)
  unfolding has_properties delayed_text read_with_text
  read_inbound timeout sms_path pdu_type = do
    reports ← has_properties sms_path
    text ← delayed_text timeout sms_path reports
    read_with_text sms_path pdu_type text

  pub sms_or_disappeared : String → Exec Client Unit
  unfolding get_sms_interface
  sms_or_disappeared sms_path = catch (get_sms_interface sms_path) (λ e.
      if is_unknown_object e
      then raise (modem read_missing (words "SMS object disappeared before read:" sms_path))
      else raise e)

  -- ModemManagerClient.read_message
  unfoldable pub read_message : ℕ → String → Exec Client (Option IncomingSms)
  unfolding sms_or_disappeared read_pdu_type read_inbound is_inbound
  read_message timeout sms_path = do
    sms_or_disappeared sms_path
    pdu_type ← read_pdu_type sms_path
    (if is_inbound pdu_type
        then read_inbound timeout sms_path pdu_type
        else raise (modem read_skipped (words "SMS object is not inbound:" sms_path)))
