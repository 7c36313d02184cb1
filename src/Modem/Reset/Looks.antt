-- ===== src/Modem/Reset/Looks.antt =====
-- modem/client.py: what a look for a modem that was reset preserves.
use sms_gateway_v.Base.{◌≡◌, String, Bool, true, Option, none, some, List}
use sms_gateway_v.Exec.{
  Exception, ModemFailure, modem_error, modem_not_found, modem, out_of_fuel, ◌>>=◌,
}
use sms_gateway_v.Exec.Raises.{is_python}
use sms_gateway_v.Exec.Runs.{Runs, Runs-raise, Runs-pure, Runs-modify, runs_rules}
use sms_gateway_v.Modem.Bus.{Bus}
use sms_gateway_v.Modem.Keys.{WatchKey}
use sms_gateway_v.Modem.Client.{Client, list_modem_paths}
use sms_gateway_v.Modem.Client.Kept.{Stable, Runs-list_modem_paths}
use sms_gateway_v.Modem.Watchers.{add_watcher}
use sms_gateway_v.Modem.Watchers.Kept.{Runs-subscribe_missing}
use sms_gateway_v.Modem.Reset.{
  fresh_path, set_modem_path, back_at, not_yet, look_at, look_failed, look,
}

module _ ⦃bus : Bus⦄ {I : Client → Type 0} (st : Stable I)
    (added : (k : WatchKey) → Runs I (add_watcher k)) where
  pub Runs-set_modem_path : (path : Option String) → Runs I (set_modem_path path)
  unfolding set_modem_path
  Runs-set_modem_path path = Runs-modify _ (λ c i. st.found c path i)

  Runs-back_at : (path : String) → Runs I (back_at path)
  unfolding back_at
  Runs-back_at path = search (runs_rules, Runs-set_modem_path, Runs-subscribe_missing st added)

  Runs-not_yet : (b : Bool) → Runs I (not_yet b)
  unfolding not_yet
  Runs-not_yet b = search (runs_rules, Runs-set_modem_path)

  Runs-look_at :
      (path : String) (disappeared : Bool) (paths : List String) (fresh : Option String)
      → Runs I (look_at path disappeared paths fresh)
  unfolding look_at
  Runs-look_at path disappeared paths (some p) = Runs-back_at p
  Runs-look_at path disappeared paths none = search (runs_rules, Runs-back_at, Runs-not_yet)

  modem_failed :
      (disappeared : Bool) (failure : ModemFailure) (message : String)
      → Runs I (look_failed disappeared (modem failure message))
  unfolding look_failed
  modem_failed disappeared modem_not_found message = Runs-pure _
  modem_failed disappeared modem_error message = Runs-pure _
  modem_failed disappeared _ message = Runs-pure _

  Runs-look_failed :
      (disappeared : Bool) (e : Exception) → is_python e ≡ true → Runs I (look_failed disappeared e)
  unfolding look_failed
  Runs-look_failed disappeared (modem failure message) p = modem_failed disappeared failure message
  Runs-look_failed disappeared out_of_fuel p = cc
  Runs-look_failed disappeared e p = Runs-raise e p

  listed : Runs I list_modem_paths
  listed = Runs-list_modem_paths st

  -- the body of its try
  pub Runs-looked :
      (path : String) (disappeared : Bool)
      → Runs I
          (list_modem_paths >>= λ paths. look_at path disappeared paths (fresh_path path paths))
  Runs-looked path disappeared = search (runs_rules, listed, Runs-look_at)

  pub Runs-look : (path : String) (disappeared : Bool) → Runs I (look path disappeared)
  unfolding look
  Runs-look path disappeared = search (runs_rules, listed, Runs-look_at, Runs-look_failed)
