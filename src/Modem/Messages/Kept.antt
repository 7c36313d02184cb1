-- ===== src/Modem/Messages/Kept.antt =====
-- modem/client.py: what listing, reading and deleting messages preserve.
use sms_gateway_v.Base.{ℕ, refl, String, Bool, true, false, List, [], ◌∷◌}
use sms_gateway_v.Exec.Runs.{Runs, Runs-bind, Runs-if, Runs-pure, Runs-modify, runs_rules}
use sms_gateway_v.Modem.Bus.{Bus}
use sms_gateway_v.Modem.Keys.{WatchKey}
use sms_gateway_v.Modem.Client.{Client}
use sms_gateway_v.Modem.Client.Kept.{
  Stable, Runs-call, Runs-get_proxy_object, Runs-get_proxy_interface,
}
use sms_gateway_v.Modem.Watchers.{add_watcher, ensure_modem_path}
use sms_gateway_v.Modem.Watchers.Kept.{
  StableLink, Runs-ensure_modem_path, Runs-get_messaging_interface,
}
use sms_gateway_v.Modem.Control.Kept.{Runs-read_required, Runs-read_optional}
use sms_gateway_v.Modem.Timestamps.{IsoFormat}
use sms_gateway_v.Modem.Messages.{
  get_sms_interface, read_pdu_type, listed_sms, read_listed, rest_of_sms, read_text, text_or_wait,
  wait_for_sms_text, on_properties_changed, off_properties_changed, get_dbus_properties_interface,
  has_properties, sms_or_disappeared, delayed_text, read_with_text, read_inbound, read_message,
  list_sms_paths, list_messages, delete_message,
}

module _ ⦃bus : Bus⦄ {I : Client → Type 0} (st : Stable I)
    (added : (k : WatchKey) → Runs I (add_watcher k)) where
  ensured : Runs I ensure_modem_path
  ensured = Runs-ensure_modem_path st added

  pub Runs-get_sms_interface : (path : String) → Runs I (get_sms_interface path)
  unfolding get_sms_interface
  Runs-get_sms_interface path =
      search (runs_rules, Runs-get_proxy_object st, Runs-get_proxy_interface st)

  pub Runs-list_sms_paths : Runs I list_sms_paths
  unfolding list_sms_paths
  Runs-list_sms_paths =
      search
        (runs_rules, ensured, Runs-get_messaging_interface st added, Runs-read_required st added)

  pub Runs-delete_message : (path : String) → Runs I (delete_message path)
  unfolding delete_message
  Runs-delete_message path = Runs-bind _ _ ensured (λ p.
      Runs-bind _ _ (Runs-get_messaging_interface st added p)
        (λ q. Runs-call st _ _ (λ fault cause. refl)))

  pub Runs-read_text : (path : String) → Runs I (read_text path)
  unfolding read_text
  Runs-read_text path = Runs-read_required st added _ _

  pub Runs-read_pdu_type : (path : String) → Runs I (read_pdu_type path)
  unfolding read_pdu_type
  Runs-read_pdu_type path = search (runs_rules, Runs-read_required st added)

module _ ⦃bus : Bus⦄ ⦃iso : IsoFormat⦄ {I : Client → Type 0} (st : Stable I)
    (added : (k : WatchKey) → Runs I (add_watcher k)) where
  Runs-listed_sms : (path pdu_type : String) → Runs I (listed_sms path pdu_type)
  unfolding listed_sms
  Runs-listed_sms path pdu_type =
      search (runs_rules, Runs-read_required st added, Runs-read_optional st added) depth 12 fits
        2000

  Runs-read_listed : (paths : List String) → Runs I (read_listed paths)
  unfolding read_listed
  Runs-read_listed [] = Runs-pure []
  Runs-read_listed (path ∷ paths) =
      let rest = Runs-read_listed paths in
      Runs-bind _ _ (Runs-get_sms_interface st added path) (λ a.
        Runs-bind _ _ (Runs-read_pdu_type st added path) (λ pdu_type.
          Runs-if _ _ _
            (Runs-bind _ _ (Runs-listed_sms path pdu_type)
              (λ message. Runs-bind _ _ rest (λ messages. Runs-pure _)))
            rest))

  pub Runs-list_messages : Runs I list_messages
  unfolding list_messages
  Runs-list_messages = Runs-bind _ _ (ensured st added) (λ p.
      Runs-bind _ _ (Runs-get_messaging_interface st added p) (λ q.
        Runs-bind _ _ (Runs-read_required st added _ _)
          (λ paths. Runs-bind _ _ (Runs-read_listed paths) (λ messages. Runs-pure _))))

  Runs-rest_of_sms : (path pdu_type text : String) → Runs I (rest_of_sms path pdu_type text)
  unfolding rest_of_sms
  Runs-rest_of_sms path pdu_type text =
      search (runs_rules, Runs-read_required st added, Runs-read_optional st added) depth 12 fits
        2000

-- A wait for the text of a message is preserved too.
pub record StableText ⦃bus : Bus⦄ (I : Client → Type 0) : Type 0 where
  pub link : StableLink I
  pub reports : (c : Client) (paths : List String) → I c → I (record c { reported = paths })
  pub waited :
      (reports : Bool) (timeout : ℕ) (path : String)
      → Runs I (wait_for_sms_text reports timeout path)

module _ ⦃bus : Bus⦄ {I : Client → Type 0} (x : StableText I) where
  Runs-text_or_wait :
      (reports : Bool) (timeout : ℕ) (path : String) → Runs I (text_or_wait reports timeout path)
  unfolding text_or_wait
  Runs-text_or_wait reports timeout path =
      Runs-bind _ _ (Runs-read_text x.link.stable x.link.added path)
        (λ text. Runs-if _ _ _ (x.waited reports timeout path) (Runs-pure text))

  pub Runs-on : (path : String) → Runs I (on_properties_changed path)
  unfolding on_properties_changed
  Runs-on path =
      Runs-bind _ _ (Runs-call x.link.stable _ _ (λ fault cause. refl))
        (λ a. Runs-modify _ (λ c i. x.reports c _ i))

  pub Runs-off : (path : String) → Runs I (off_properties_changed path)
  unfolding off_properties_changed
  Runs-off path =
      Runs-bind _ _ (Runs-call x.link.stable _ _ (λ fault cause. refl))
        (λ a. Runs-modify _ (λ c i. x.reports c _ i))

  Runs-properties : (path : String) → Runs I (get_dbus_properties_interface path)
  unfolding get_dbus_properties_interface
  Runs-properties path =
      search
        (runs_rules, Runs-get_proxy_object x.link.stable, Runs-get_proxy_interface x.link.stable)

  pub Runs-has_properties : (path : String) → Runs I (has_properties path)
  unfolding has_properties
  Runs-has_properties path = search (runs_rules, Runs-properties)

  Runs-delayed_text :
      (timeout : ℕ) (path : String) (reports : Bool) → Runs I (delayed_text timeout path reports)
  unfolding delayed_text
  Runs-delayed_text timeout path false = Runs-text_or_wait false timeout path
  Runs-delayed_text timeout path true = search (runs_rules, Runs-on, Runs-off, Runs-text_or_wait)

module _ ⦃bus : Bus⦄ ⦃iso : IsoFormat⦄ {I : Client → Type 0} (x : StableText I) where
  Runs-read_with_text : (path pdu_type text : String) → Runs I (read_with_text path pdu_type text)
  unfolding read_with_text
  Runs-read_with_text path pdu_type text =
      search (runs_rules, Runs-rest_of_sms x.link.stable x.link.added)

  Runs-read_inbound :
      (timeout : ℕ) (path pdu_type : String) → Runs I (read_inbound timeout path pdu_type)
  unfolding read_inbound
  Runs-read_inbound timeout path pdu_type =
      search (runs_rules, Runs-has_properties x, Runs-delayed_text x, Runs-read_with_text)

  pub Runs-disappeared : (path : String) → Runs I (sms_or_disappeared path)
  unfolding sms_or_disappeared
  Runs-disappeared path = search (runs_rules, Runs-get_sms_interface x.link.stable x.link.added)

  pub Runs-read_message : (timeout : ℕ) (path : String) → Runs I (read_message timeout path)
  unfolding read_message
  Runs-read_message timeout path = search (
    runs_rules,
    Runs-disappeared,
    Runs-read_pdu_type x.link.stable x.link.added,
    Runs-read_inbound,
  )
