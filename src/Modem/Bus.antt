-- ===== src/Modem/Bus.antt =====
-- D-Bus and ModemManager, as modem/client.py meets them: a parameter of the client's model. The
-- answer of a call may depend on when it is made, so each is a function of the number of calls that
-- the client has made before.
use sms_gateway_v.Base.{ℕ, String, Bool, List}
use sms_gateway_v.Exec.{Fault}
use sms_gateway_v.Modem.Models.{DBusInt, IntOrText}

pub data Reply (A : Type 0) : Type 0 where
  answered : A → Reply A
  -- with the text of the exception
  failed : Fault → String → Reply A

-- Objects and interfaces are named by their paths and names. Times are in microseconds.
pub record Bus : Type 0 where
  -- how long the call takes
  pub takes : ℕ → ℕ
  -- `MessageBus(...).connect()` and `bus.connected`
  pub connect : ℕ → Reply (Unit {0})
  pub connected : ℕ → Bool
  -- `bus.introspect` and `bus.get_proxy_object` of an object
  pub introspect : ℕ → String → Reply (Unit {0})
  -- the objects of ModemManager, each with its interfaces
  pub managed_objects : ℕ → Reply (List (String × List String))
  -- `proxy.get_interface`, of an object and the name of an interface
  pub get_interface : ℕ → String → String → Reply (Unit {0})
  -- the messaging interface of a modem
  pub messages : ℕ → String → Reply (List String)
  pub delete : ℕ → String → String → Reply (Unit {0})
  pub on_added : ℕ → String → Reply (Unit {0})
  pub off_added : ℕ → String → Reply (Unit {0})
  -- the modem interfaces of a modem
  pub reset : ℕ → String → Reply (Unit {0})
  pub enable : ℕ → String → Reply (Unit {0})
  pub signal_quality : ℕ → String → Reply (DBusInt × Bool)
  pub state : ℕ → String → Reply IntOrText
  pub registration_state : ℕ → String → Reply DBusInt
  -- the properties of an object that are texts, by their names
  pub property : ℕ → String → String → Reply String
  -- an SMS
  pub pdu_type : ℕ → String → Reply IntOrText
  -- `on_properties_changed` and `off_properties_changed` of an object
  pub on_properties_changed : ℕ → String → Reply (Unit {0})
  pub off_properties_changed : ℕ → String → Reply (Unit {0})
  -- how long it is until a signal says that the text of the SMS has changed, if one comes
  pub text_changed : ℕ → String → ℕ
