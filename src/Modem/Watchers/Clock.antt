-- ===== src/Modem/Watchers/Clock.antt =====
-- modem/client.py: the time does not go back while a watcher is added.
use sms_gateway_v.Base.{ℕ, refl}
use sms_gateway_v.Exec.Runs.{Runs, Runs-bind, Runs-if, Runs-gets, Runs-pure, Runs-modify}
use sms_gateway_v.Modem.Bus.{Bus}
use sms_gateway_v.Modem.Keys.{WatchKey}
use sms_gateway_v.Modem.Client.{unsubscribe_all_added_watchers}
use sms_gateway_v.Modem.Client.Kept.{Runs-call}
use sms_gateway_v.Modem.Client.Clock.{Since, Since-Stable}
use sms_gateway_v.Modem.Watchers.{add_watcher, drop_bus, disconnect}
use sms_gateway_v.Modem.Watchers.Kept.{StableLink}

module _ ⦃bus : Bus⦄ (t : ℕ) where
  pub add_watcher-Since : (k : WatchKey) → Runs (Since t) (add_watcher k)
  unfolding add_watcher
  add_watcher-Since k = Runs-bind _ _ (Runs-gets _) (λ watched. Runs-if watched _ _ (Runs-pure tt) (
      Runs-bind _ _ (Runs-call (Since-Stable t) _ _ (λ fault cause. refl))
        (λ a. Runs-modify _ (λ c i. i))))

  unsubscribed : Runs (Since t) unsubscribe_all_added_watchers
  unsubscribed = (Since-Stable t).unsubscribed

  pub Since-StableLink : StableLink (Since t)
  unfolding drop_bus disconnect
  Since-StableLink = record {
    stable = Since-Stable t;
    added = add_watcher-Since;
    called_back = λ c ks i. i;
    dropped = Runs-modify _ (λ c i. i);
    opened = λ c i. i;
    closed = Runs-bind _ _ (Runs-gets _) (λ has_bus.
        Runs-if has_bus _ _ (Runs-bind _ _ unsubscribed (λ a. Runs-modify _ (λ c i. i)))
          (Runs-pure tt));
  }
