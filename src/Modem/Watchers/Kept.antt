-- ===== src/Modem/Watchers/Kept.antt =====
-- modem/client.py: what connecting and the watchers preserve.
use sms_gateway_v.Base.{String, true, Option, none, some, List, [], ◌∷◌}
use sms_gateway_v.Exec.{Exec, modify}
use sms_gateway_v.Exec.Runs.{Runs, Runs-bind, Runs-pure, Runs-modify, runs_rules}
use sms_gateway_v.Modem.Bus.{Bus}
use sms_gateway_v.Modem.Keys.{CallbackKey, WatchKey, AddedCallback}
use sms_gateway_v.Modem.Client.{
  Client, refresh_modem_path, unsubscribe_all_added_watchers, find_modem, require_resubscribe,
}
use sms_gateway_v.Modem.Client.Kept.{
  Stable, Runs-call, Runs-find_modem, Runs-get_proxy_object, Runs-get_proxy_interface,
  Runs-require_resubscribe, Runs-refresh_modem_path, Runs-or_refresh, Runs-get_cached_proxy_object,
}
use sms_gateway_v.Modem.Watchers.{
  set_required, refreshed_messaging, messaging_at, messaging_or_refresh, or_at, messaging_with,
  add_watcher, subscribe_with, subscribe_each, subscribe_missing_added_watchers,
  resubscribe_added_watchers, get_messaging_interface, cached_or_found, ensure_modem_path,
  watch_added, resubscribe_after_reconnect, require_if_needed, drop_bus, connect_anew, connect,
  disconnect,
}

module _ ⦃bus : Bus⦄ {I : Client → Type 0} (st : Stable I)
    (added : (k : WatchKey) → Runs I (add_watcher k)) where
  -- the facts about the client, at this predicate
  unsubscribed : Runs I unsubscribe_all_added_watchers
  unsubscribed = st.unsubscribed

  refreshed : Runs I refresh_modem_path
  refreshed = Runs-refresh_modem_path st

  found : Runs I find_modem
  found = Runs-find_modem st

  required : Runs I require_resubscribe
  required = Runs-require_resubscribe st

  Runs-set_required : Runs I set_required
  unfolding set_required
  Runs-set_required = Runs-modify _ (λ c i. st.required c _ i)

  Runs-refreshed_messaging :
      (resubscribe : String → Exec Client Unit)
      → ((path : String) → Runs I (resubscribe path))
      → Runs I (refreshed_messaging resubscribe)
  unfolding refreshed_messaging
  Runs-refreshed_messaging resubscribe k =
      search (runs_rules, refreshed, Runs-get_proxy_object st, Runs-get_proxy_interface st, k) depth
        12 fits 2000

  Runs-messaging_at :
      (resubscribe : String → Exec Client Unit) (requested path : String)
      → ((path : String) → Runs I (resubscribe path))
      → Runs I (messaging_at resubscribe requested path)
  unfolding messaging_at
  Runs-messaging_at resubscribe requested path k = search (runs_rules, k)

  Runs-messaging_or_refresh :
      (resubscribe : String → Exec Client Unit) (path : String)
      → ((path : String) → Runs I (resubscribe path))
      → Runs I (messaging_or_refresh resubscribe path)
  unfolding messaging_or_refresh
  Runs-messaging_or_refresh resubscribe path k =
      search
        (runs_rules, Runs-get_proxy_interface st, Runs-or_refresh st, Runs-refreshed_messaging, k)

  Runs-or_at :
      (resubscribe : String → Exec Client Unit) (requested path : String)
      (refreshed : Option String)
      → ((path : String) → Runs I (resubscribe path))
      → Runs I (or_at resubscribe requested path refreshed)
  unfolding or_at
  Runs-or_at resubscribe requested path none k = Runs-messaging_at resubscribe requested path k
  Runs-or_at resubscribe requested path (some p) k = Runs-pure p

  Runs-messaging_with :
      (resubscribe : String → Exec Client Unit) (path : String)
      → ((path : String) → Runs I (resubscribe path))
      → Runs I (messaging_with resubscribe path)
  unfolding messaging_with
  Runs-messaging_with resubscribe path k =
      search (runs_rules, Runs-get_cached_proxy_object st, Runs-messaging_or_refresh, Runs-or_at, k)

  Runs-subscribe_with :
      (messaging : String → Exec Client String) (path : String) (key : CallbackKey)
      → ((path : String) → Runs I (messaging path))
      → Runs I (subscribe_with messaging path key)
  unfolding subscribe_with
  Runs-subscribe_with messaging path key k = search (runs_rules, added, k)

  Runs-subscribe_each :
      (path : String) (keys : List CallbackKey) → Runs I (subscribe_each path keys)
  unfolding subscribe_each
  Runs-subscribe_each path [] = Runs-pure tt
  Runs-subscribe_each path (k ∷ ks) =
      Runs-bind _ _
        (Runs-subscribe_with _ path k (λ p. Runs-messaging_with _ p (λ q. Runs-pure tt)))
        (λ a. Runs-subscribe_each path ks)

  pub Runs-subscribe_missing : (path : String) → Runs I (subscribe_missing_added_watchers path)
  unfolding subscribe_missing_added_watchers
  Runs-subscribe_missing path =
      search (runs_rules, required, Runs-subscribe_each, Runs-set_required) depth 12 fits 2000

  pub Runs-resubscribe : (path : String) → Runs I (resubscribe_added_watchers path)
  unfolding resubscribe_added_watchers
  Runs-resubscribe path =
      Runs-bind unsubscribe_all_added_watchers _ st.unsubscribed (λ a. Runs-subscribe_missing path)

  pub Runs-get_messaging_interface : (path : String) → Runs I (get_messaging_interface path)
  unfolding get_messaging_interface
  Runs-get_messaging_interface path = Runs-messaging_with _ path Runs-resubscribe

  Runs-cached_or_found : (cached : Option String) → Runs I (cached_or_found cached)
  unfolding cached_or_found
  Runs-cached_or_found none = Runs-find_modem st
  Runs-cached_or_found (some path) = Runs-pure path

  pub Runs-ensure_modem_path : Runs I ensure_modem_path
  unfolding ensure_modem_path
  Runs-ensure_modem_path =
      search (runs_rules, Runs-cached_or_found, Runs-subscribe_missing) depth 12 fits 2000

-- What connecting, disconnecting and a new callback write is preserved too.
pub record StableLink ⦃bus : Bus⦄ (I : Client → Type 0) : Type 0 where
  pub stable : Stable I
  pub added : (k : WatchKey) → Runs I (add_watcher k)
  pub called_back :
      (c : Client) (ks : List CallbackKey) → I c → I (record c { added_callbacks = ks })
  pub dropped : Runs I drop_bus
  pub opened : (c : Client) → I c → I (record c { has_bus = true })
  pub closed : Runs I disconnect

module _ ⦃bus : Bus⦄ {I : Client → Type 0} (l : StableLink I) where
  pub Runs-watch_added : (callback : AddedCallback) → Runs I (watch_added callback)
  unfolding watch_added
  Runs-watch_added callback = Runs-bind _ _ (Runs-modify _ (λ c i. l.called_back c _ i)) (λ a.
      Runs-bind _ _ (Runs-ensure_modem_path l.stable l.added) (λ path.
        Runs-subscribe_with l.stable l.added get_messaging_interface path _
          (Runs-get_messaging_interface l.stable l.added)))

  Runs-require_if_needed : Runs I require_if_needed
  unfolding require_if_needed
  Runs-require_if_needed = Runs-modify _ (λ c i. l.stable.required c _ i)

  Runs-open : Runs I (modify (λ c. record c { has_bus = true }))
  Runs-open = Runs-modify _ l.opened

  dropped : Runs I drop_bus
  dropped = l.dropped

  found_again : Runs I find_modem
  found_again = Runs-find_modem l.stable

  Runs-connect_anew : Runs I connect_anew
  unfolding connect_anew
  Runs-connect_anew = search (runs_rules, dropped, Runs-call l.stable, Runs-open) depth 12 fits 2000

  Runs-resubscribe_after_reconnect : Runs I resubscribe_after_reconnect
  unfolding resubscribe_after_reconnect
  Runs-resubscribe_after_reconnect =
      search (runs_rules, found_again, Runs-subscribe_missing l.stable l.added) depth 12 fits 2000

  pub Runs-connect : Runs I connect
  unfolding connect
  Runs-connect =
      search
        (runs_rules, Runs-connect_anew, Runs-require_if_needed, Runs-resubscribe_after_reconnect)
        depth 12 fits 2000
