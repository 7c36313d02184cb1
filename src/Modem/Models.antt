-- ===== src/Modem/Models.antt =====
-- modem/models.py and the decoding helpers of modem/client.py.
use sms_gateway_v.Base.{ℕ, String, Bool, List, [], ◌∷◌, nat_eq, leb, contains, if◌then◌else◌}
use sms_gateway_v.Exec.{Result, ok, raised, validation_error}

pub data RegistrationState : Type 0 where
  unknown idle searching denied home roaming home_sms_only roaming_sms_only emergency_only
        home_csfb_not_preferred roaming_csfb_not_preferred attached_rlos :
      RegistrationState

-- RegistrationState.value
abbrev pub value : RegistrationState → String
value unknown = "unknown"
value idle = "idle"
value searching = "searching"
value denied = "denied"
value home = "home"
value roaming = "roaming"
value home_sms_only = "home_sms_only"
value roaming_sms_only = "roaming_sms_only"
value emergency_only = "emergency_only"
value home_csfb_not_preferred = "home_csfb_not_preferred"
value roaming_csfb_not_preferred = "roaming_csfb_not_preferred"
value attached_rlos = "attached_rlos"

-- a D-Bus value that may be negative: `minus n` is -(n + 1)
pub data DBusInt : Type 0 where
  plus : ℕ → DBusInt
  minus : ℕ → DBusInt

pub find_key {ℓ} : {A : Type ℓ} → List (ℕ × A) → ℕ → A → A
find_key [] n d = d
find_key ((k, a) ∷ rest) n d = if nat_eq k n then a else find_key rest n d

abbrev pub registration_states : List (ℕ × RegistrationState)
registration_states =
    (0, idle)
    ∷ (1, home)
    ∷ (2, searching)
    ∷ (3, denied)
    ∷ (4, unknown)
    ∷ (5, roaming)
    ∷ (6, home_sms_only)
    ∷ (7, roaming_sms_only)
    ∷ (8, emergency_only)
    ∷ (9, home_csfb_not_preferred)
    ∷ (10, roaming_csfb_not_preferred)
    ∷ (11, attached_rlos)
    ∷ []

-- RegistrationState.from_dbus_value
unfoldable pub from_dbus_value : DBusInt → RegistrationState
unfolding find_key
from_dbus_value (plus n) = find_key registration_states n unknown
from_dbus_value (minus n) = unknown

pub record SignalQuality : Type 0 where
  pub percent : ℕ
  pub recent : Bool

-- SignalQuality.validate_percent
unfoldable pub signal_quality : DBusInt → Bool → Result SignalQuality
signal_quality (minus n) recent = raised validation_error
signal_quality (plus percent) recent =
    if leb percent 100
    then ok (record { percent = percent; recent = recent })
    else raised validation_error

-- a property that is an integer or, on other versions, a text already
pub data IntOrText : Type 0 where
  int : DBusInt → IntOrText
  str : String → IntOrText

abbrev pub modem_states : List (ℕ × String)
modem_states =
    (0, "unknown")
    ∷ (1, "initializing")
    ∷ (2, "locked")
    ∷ (3, "disabled")
    ∷ (4, "disabling")
    ∷ (5, "enabling")
    ∷ (6, "enabled")
    ∷ (7, "searching")
    ∷ (8, "registered")
    ∷ (9, "disconnecting")
    ∷ (10, "connecting")
    ∷ (11, "connected")
    ∷ []

-- _decode_modem_state, with MODEM_STATES
unfoldable pub decode_modem_state : IntOrText → String
unfolding find_key
decode_modem_state (str s) = s
decode_modem_state (int (plus n)) = find_key modem_states n "unknown"
decode_modem_state (int (minus n)) = if nat_eq n 0 then "failed" else "unknown"

abbrev pub sms_pdu_types : List (ℕ × String)
sms_pdu_types =
    (0, "unknown")
    ∷ (1, "deliver")
    ∷ (2, "submit")
    ∷ (3, "status-report")
    ∷ (32, "cdma-deliver")
    ∷ (33, "cdma-submit")
    ∷ (34, "cdma-cancellation")
    ∷ (35, "cdma-delivery-acknowledgement")
    ∷ (36, "cdma-user-acknowledgement")
    ∷ (37, "cdma-read-acknowledgement")
    ∷ []

-- _decode_pdu_type, with SMS_PDU_TYPES
unfoldable pub decode_pdu_type : IntOrText → String
unfolding find_key
decode_pdu_type (str s) = s
decode_pdu_type (int (plus n)) = find_key sms_pdu_types n "unknown"
decode_pdu_type (int (minus n)) = "unknown"

-- INBOUND_SMS_PDU_TYPES
unfoldable pub is_inbound : String → Bool
is_inbound = contains ("deliver" ∷ "cdma-deliver" ∷ [])
