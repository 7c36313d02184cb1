-- ===== src/Modem/Control.antt =====
-- modem/client.py: what the client reads of a modem, and how it enables it.
pub mod Kept
use Prim.Native.String.{◌++◌ as append}
use sms_gateway_v.Base.{
  ℕ, suc, ◌+◌, ◌-◌, String, Bool, true, false, ◌&&◌, ◌||◌, not, Option, none, some, List, [], ◌∷◌,
  min, ltb, leb, ◌==◌, contains, if◌then◌else◌,
}
use sms_gateway_v.Exec.{
  Exec, Exception, Fault, unknown_property, unavailable_by, Result, modem, modem_error, unavailable,
  modem_not_found, out_of_fuel, pure, raise, gets, modify, catch, ◌>>=◌, ◌>>◌,
}
use sms_gateway_v.Modem.Models.{
  RegistrationState, from_dbus_value, SignalQuality, signal_quality, decode_modem_state, DBusInt,
  IntOrText,
}
use sms_gateway_v.Modem.Bus.{Bus, Reply, answered, failed}
use sms_gateway_v.Modem.Client.{
  Client, operation_error, after_call, words, modem_interface, unavailable_from, call,
  list_modem_paths, get_proxy_object, get_cached_proxy_object, get_proxy_interface,
  refresh_modem_path, or_refresh, is_stale_modem_path, unsubscribe_all_added_watchers,
  require_resubscribe, is_empty,
}
use sms_gateway_v.Modem.Watchers.{
  ensure_modem_path, subscribe_missing_added_watchers, resubscribe_added_watchers,
}

abbrev pub modem_3gpp_interface : String
modem_3gpp_interface = "org.freedesktop.ModemManager1.Modem.Modem3gpp"

abbrev pub sim_interface : String
sim_interface = "org.freedesktop.ModemManager1.Sim"

-- ModemInfo
pub record ModemInfo : Type 0 where
  pub object_path : String
  pub manufacturer : String
  pub model : String
  pub equipment_id : String
  pub device : String
  pub state : String
  pub registration : RegistrationState
  pub signal : SignalQuality
  pub sim_imsi : Option String
  pub sim_operator_name : Option String
  pub sim_operator_id : Option String

pub record SimInfo : Type 0 where
  pub imsi : Option String
  pub operator_name : Option String
  pub operator_id : Option String

-- a value of the model that may be an exception
pub returned : {A : Type 0} → Result A → Exec Client A
returned r c = (r, c)

-- An unknown property is none.
optional_of : String → Reply String → Exec Client (Option String)
optional_of name (answered value) = pure (some value)
optional_of name (failed unknown_property cause) = pure none
optional_of name (failed fault cause) = raise (
    operation_error (unavailable_from (words "failed to read optional modem property" name)) fault
      cause)

module _ ⦃bus : Bus⦄ where
  -- _read_required
  unfoldable pub read_required : {A : Type 0} → String → (ℕ → Reply A) → Exec Client A
  read_required property_name reader =
      call
        (λ fault cause.
          modem modem_error (words "failed to read required modem property" property_name))
        reader

  -- _read_optional
  unfoldable pub read_optional : String → (ℕ → Reply String) → Exec Client (Option String)
  unfolding optional_of
  read_optional property_name reader c = optional_of property_name (reader c.calls) (after_call c)

  get_interfaces : String → String → List String → Exec Client Unit
  get_interfaces object_kind modem_path [] = pure tt
  get_interfaces object_kind modem_path (name ∷ names) = do
    get_proxy_interface object_kind modem_path name
    get_interfaces object_kind modem_path names

  -- _get_modem_interfaces_from_proxy
  get_modem_interfaces_from_proxy : List String → String → String → Exec Client String
  unfolding get_interfaces or_refresh
  get_modem_interfaces_from_proxy interface_names object_kind modem_path =
      catch (do get_interfaces object_kind modem_path interface_names; pure modem_path)
        (λ e.
          or_refresh (is_stale_modem_path e) modem_path
            (do
              refreshed_path ← refresh_modem_path
              refreshed_path ← get_proxy_object object_kind refreshed_path
              get_interfaces object_kind refreshed_path interface_names
              pure refreshed_path)
            e)

  -- _get_modem_interfaces; the interfaces are those of the path that it returns
  unfoldable pub get_modem_interfaces : List String → Exec Client String
  unfolding get_modem_interfaces_from_proxy
  get_modem_interfaces interface_names = do
    requested_modem_path ← ensure_modem_path
    modem_path ← get_cached_proxy_object "modem object" requested_modem_path
    resolved_path ← get_modem_interfaces_from_proxy interface_names "modem object" modem_path
    required ← gets (λ c. c.added_watch_resubscribe_required)
    (if not (resolved_path == requested_modem_path) || required
        then resubscribe_added_watchers resolved_path
        else pure tt)
    pure resolved_path

  read_signal_quality : String → Exec Client SignalQuality
  read_signal_quality modem_path = do
    quality ← read_required "SignalQuality" (λ n. bus.signal_quality n modem_path)
    returned (signal_quality quality.0 quality.1)

  -- get_signal_quality
  unfoldable pub get_signal_quality : Exec Client SignalQuality
  unfolding read_signal_quality
  get_signal_quality = do
    modem_path ← get_modem_interfaces (modem_interface ∷ [])
    read_signal_quality modem_path

  -- get_registration_state
  unfoldable pub get_registration_state : Exec Client RegistrationState
  get_registration_state = do
    modem_path ← get_modem_interfaces (modem_3gpp_interface ∷ [])
    registration_value ←
        read_required "RegistrationState" (λ n. bus.registration_state n modem_path)
    pure (from_dbus_value registration_value)

  -- get_modem_state
  unfoldable pub get_modem_state : Exec Client String
  get_modem_state = do
    modem_path ← get_modem_interfaces (modem_interface ∷ [])
    raw_state ← read_required "State" (λ n. bus.state n modem_path)
    pure (decode_modem_state raw_state)

  -- get_operator_name
  unfoldable pub get_operator_name : Exec Client String
  get_operator_name = do
    modem_path ← get_modem_interfaces (modem_3gpp_interface ∷ [])
    read_required "OperatorName" (λ n. bus.property n modem_path "OperatorName")

  no_sim : SimInfo
  no_sim = record { imsi = none; operator_name = none; operator_id = none }

  read_sim : String → Exec Client SimInfo
  read_sim sim_path = do
    sim_path ← get_proxy_object "SIM object" sim_path
    get_proxy_interface "SIM object" sim_path sim_interface
    imsi ← read_optional "Imsi" (λ n. bus.property n sim_path "Imsi")
    operator_name ← read_optional "OperatorName" (λ n. bus.property n sim_path "OperatorName")
    operator_id ←
        read_optional "OperatorIdentifier" (λ n. bus.property n sim_path "OperatorIdentifier")
    pure (record { imsi = imsi; operator_name = operator_name; operator_id = operator_id })

  -- get_modem_info
  unfoldable pub get_modem_info : Exec Client ModemInfo
  unfolding no_sim read_sim
  get_modem_info = do
    modem_path ← get_modem_interfaces (modem_interface ∷ modem_3gpp_interface ∷ [])
    manufacturer ← read_required "Manufacturer" (λ n. bus.property n modem_path "Manufacturer")
    model ← read_required "Model" (λ n. bus.property n modem_path "Model")
    equipment_id ←
        read_required "EquipmentIdentifier" (λ n. bus.property n modem_path "EquipmentIdentifier")
    device ← read_required "PrimaryPort" (λ n. bus.property n modem_path "PrimaryPort")
    raw_state ← read_required "State" (λ n. bus.state n modem_path)
    quality ← read_required "SignalQuality" (λ n. bus.signal_quality n modem_path)
    registration_value ←
        read_required "RegistrationState" (λ n. bus.registration_state n modem_path)
    read_required "OperatorName" (λ n. bus.property n modem_path "OperatorName")
    read_required "OperatorCode" (λ n. bus.property n modem_path "OperatorCode")
    sim_path ← read_required "Sim" (λ n. bus.property n modem_path "Sim")
    sim ← (if contains ("" ∷ "/" ∷ []) sim_path then pure no_sim else read_sim sim_path)
    signal ← returned (signal_quality quality.0 quality.1)
    pure (record {
      object_path = modem_path;
      manufacturer = manufacturer;
      model = model;
      equipment_id = equipment_id;
      device = device;
      state = decode_modem_state raw_state;
      registration = from_dbus_value registration_value;
      signal = signal;
      sim_imsi = sim.imsi;
      sim_operator_name = sim.operator_name;
      sim_operator_id = sim.operator_id;
    })

  -- ModemManagerClient.enable
  unfoldable pub enable : Exec Client Unit
  enable = do
    modem_path ← get_modem_interfaces (modem_interface ∷ [])
    call
        (λ fault cause.
          modem (unavailable_by fault)
            (append (append (words "failed to enable modem at" modem_path) ": ") cause))
        (λ n. bus.enable n modem_path)
