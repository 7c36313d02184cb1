-- ===== src/Modem/Control/Kept.antt =====
-- modem/client.py: what the reads of a modem and its enabling preserve.
use sms_gateway_v.Base.{ℕ, arith, ◌≡◌, refl, String, Bool, true, List, [], ◌∷◌}
use sms_gateway_v.Exec.{unknown_object, unknown_property, Result, ◌>>=◌}
use sms_gateway_v.Exec.Raises.{is_fuelled}
use sms_gateway_v.Exec.Runs.{Runs, Runs-bind, Runs-pure, runs_rules}
use sms_gateway_v.Modem.Models.{signal_quality, DBusInt, plus, minus}
use sms_gateway_v.Modem.Bus.{Bus, Reply, answered, failed}
use sms_gateway_v.Modem.Keys.{WatchKey}
use sms_gateway_v.Modem.Client.{Client, after_call, operation_error, refresh_modem_path}
use sms_gateway_v.Modem.Client.Kept.{
  Stable, Runs-call, Runs-get_proxy_object, Runs-get_proxy_interface, Runs-refresh_modem_path,
  Runs-or_refresh, Runs-get_cached_proxy_object,
}
use sms_gateway_v.Modem.Watchers.{add_watcher, ensure_modem_path}
use sms_gateway_v.Modem.Watchers.Kept.{Runs-ensure_modem_path, Runs-resubscribe}
use sms_gateway_v.Modem.Control.{
  returned, optional_of, read_required, read_optional, get_interfaces,
  get_modem_interfaces_from_proxy, get_modem_interfaces, read_signal_quality, get_signal_quality,
  get_registration_state, get_modem_state, get_operator_name, read_sim, get_modem_info, enable,
}

module _ ⦃bus : Bus⦄ {I : Client → Type 0} (st : Stable I)
    (added : (k : WatchKey) → Runs I (add_watcher k)) where
  pub Runs-read_required :
      {A : Type 0} (name : String) (reader : ℕ → Reply A) → Runs I (read_required name reader)
  unfolding read_required
  Runs-read_required name reader = Runs-call st _ reader (λ fault cause. refl)

  optional-kept : (name : String) (r : Reply String) (c : Client) → I c → I (optional_of name r c).1
  unfolding optional_of ◌>>=◌
  optional-kept name (answered a) c i = i
  optional-kept name (failed unknown_property cause) c i = i
  optional-kept name (failed unknown_object cause) c i = i
  optional-kept name (failed fault cause) c i = i

  optional-fuelled :
      (name : String) (r : Reply String) (c : Client) → is_fuelled (optional_of name r c).0 ≡ true
  unfolding optional_of operation_error ◌>>=◌
  optional-fuelled name (answered a) c = refl
  optional-fuelled name (failed unknown_property cause) c = refl
  optional-fuelled name (failed unknown_object cause) c = refl
  optional-fuelled name (failed fault cause) c = refl

  pub Runs-read_optional :
      (name : String) (reader : ℕ → Reply String) → Runs I (read_optional name reader)
  unfolding read_optional
  Runs-read_optional name reader = record {
    keeps = λ c i. optional-kept name (reader c.calls) (after_call c) (st.called c i);
    fuelled = λ c i. optional-fuelled name (reader c.calls) (after_call c);
  }

  Runs-get_interfaces :
      (kind path : String) (names : List String) → Runs I (get_interfaces kind path names)
  unfolding get_interfaces
  Runs-get_interfaces kind path [] = Runs-pure tt
  Runs-get_interfaces kind path (name ∷ names) =
      Runs-bind _ _ (Runs-get_proxy_interface st kind path name)
        (λ a. Runs-get_interfaces kind path names)

  refreshed : Runs I refresh_modem_path
  refreshed = Runs-refresh_modem_path st

  ensured : Runs I ensure_modem_path
  ensured = Runs-ensure_modem_path st added

  Runs-from_proxy :
      (names : List String) (kind path : String)
      → Runs I (get_modem_interfaces_from_proxy names kind path)
  unfolding get_modem_interfaces_from_proxy
  Runs-from_proxy names kind path =
      search
        (runs_rules, Runs-get_interfaces, Runs-or_refresh st, refreshed, Runs-get_proxy_object st)
        depth 14 fits 2000

  pub Runs-get_modem_interfaces : (names : List String) → Runs I (get_modem_interfaces names)
  unfolding get_modem_interfaces
  Runs-get_modem_interfaces names =
      search
        (
          runs_rules,
          ensured,
          Runs-get_cached_proxy_object st,
          Runs-from_proxy,
          Runs-resubscribe st added,
        )
        depth 14 fits 2000

  pub Runs-enable : Runs I enable
  unfolding enable
  Runs-enable =
      Runs-bind _ _ (Runs-get_modem_interfaces _) (λ path. Runs-call st _ _ (λ fault cause. refl))

  Runs-returned : {A : Type 0} (r : Result A) → is_fuelled r ≡ true → Runs I (returned r)
  unfolding returned
  Runs-returned r p = record { keeps = λ c i. i; fuelled = λ c i. p }

  quality-fuelled : (q : DBusInt) (b : Bool) → is_fuelled (signal_quality q b) ≡ true
  unfolding signal_quality
  quality-fuelled (plus n) b = ground arith
  quality-fuelled (minus n) b = refl

  Runs-read_signal_quality : (path : String) → Runs I (read_signal_quality path)
  unfolding read_signal_quality
  Runs-read_signal_quality path =
      search (runs_rules, Runs-read_required, Runs-returned, quality-fuelled)

  pub Runs-get_signal_quality : Runs I get_signal_quality
  unfolding get_signal_quality
  Runs-get_signal_quality = search (runs_rules, Runs-get_modem_interfaces, Runs-read_signal_quality)

  pub Runs-get_registration_state : Runs I get_registration_state
  unfolding get_registration_state
  Runs-get_registration_state = search (runs_rules, Runs-get_modem_interfaces, Runs-read_required)

  pub Runs-get_modem_state : Runs I get_modem_state
  unfolding get_modem_state
  Runs-get_modem_state = search (runs_rules, Runs-get_modem_interfaces, Runs-read_required)

  pub Runs-get_operator_name : Runs I get_operator_name
  unfolding get_operator_name
  Runs-get_operator_name = search (runs_rules, Runs-get_modem_interfaces, Runs-read_required)

  Runs-read_sim : (path : String) → Runs I (read_sim path)
  unfolding read_sim
  Runs-read_sim path =
      search (runs_rules, Runs-get_proxy_object st, Runs-get_proxy_interface st, Runs-read_optional)
        depth 20 fits 4000

  pub Runs-get_modem_info : Runs I get_modem_info
  unfolding get_modem_info
  Runs-get_modem_info =
      search
        (
          runs_rules, Runs-get_modem_interfaces, Runs-read_required, Runs-read_sim, Runs-returned,
          quality-fuelled,
        )
        depth 40 fits 9000
