-- ===== src/Modem/Watchers.antt =====
-- modem/client.py: connecting, and the watchers for added messages, which follow the modem from one
-- object path to the next.
pub mod Kept
pub mod Clock
pub mod Noted
use sms_gateway_v.Base.{
  ℕ, suc, String, Bool, true, false, ◌&&◌, ◌||◌, not, Option, none, some, List, [], ◌∷◌, ◌++◌,
  nat_eq, ◌==◌, if◌then◌else◌,
}
use sms_gateway_v.Exec.{
  Exec, Exception, Fault, bus_error, modem, unavailable, pure, raise, gets, modify, catch, ◌>>=◌,
  ◌>>◌,
}
use sms_gateway_v.Modem.Bus.{Bus}
use sms_gateway_v.Modem.Keys.{
  CallbackKey, WatchKey, AddedCallback, callback_key, key_eq, watch_eq, has_key, has_watch,
}
use sms_gateway_v.Modem.Client.{
  is_empty, Client, unavailable_from, call, find_modem, get_proxy_object, get_cached_proxy_object,
  get_proxy_interface, refresh_modem_path, or_refresh, is_stale_modem_path,
  unsubscribe_all_added_watchers, require_resubscribe,
}

abbrev pub messaging_interface : String
messaging_interface = "org.freedesktop.ModemManager1.Modem.Messaging"

-- whether a callback has no watcher at the path
abbrev pub is_missing : String → List WatchKey → List CallbackKey → Bool
is_missing path keys [] = false
is_missing path keys (k ∷ ks) = if has_watch keys (path, k) then is_missing path keys ks else true

needs_at : Option String → List WatchKey → List CallbackKey → Bool
needs_at path keys [] = false
needs_at none keys (k ∷ ks) = true
needs_at (some path) keys (k ∷ ks) = is_missing path keys (k ∷ ks)

-- _needs_added_watch_resubscribe
unfoldable pub needs_added_watch_resubscribe : Client → Bool
unfolding needs_at
needs_added_watch_resubscribe c = needs_at c.modem_path c.added_watch_keys c.added_callbacks

set_required : Exec Client Unit
set_required =
    modify (λ c. record c { added_watch_resubscribe_required = needs_added_watch_resubscribe c })

-- `self._bus.disconnect()`, which ends the handlers at D-Bus, and what is written after it
close_bus : Exec Client Unit
close_bus = modify (λ c. record c {
  has_bus = false;
  modem_path = none;
  added_callbacks = [];
  added_watch_resubscribe_required = false;
  listening = [];
})

module _ ⦃bus : Bus⦄ where
  -- _get_messaging_interface; `resubscribe` is what it does with the path of the modem if
  -- `resubscribe_added_watchers` is set, and nothing otherwise.
  refreshed_messaging : (String → Exec Client Unit) → Exec Client String
  refreshed_messaging resubscribe = do
    refreshed_path ← refresh_modem_path
    refreshed_path ← get_proxy_object "messaging object" refreshed_path
    get_proxy_interface "messaging object" refreshed_path messaging_interface
    resubscribe refreshed_path
    pure refreshed_path

  -- what follows where the path had the interface
  messaging_at : (String → Exec Client Unit) → String → String → Exec Client String
  messaging_at resubscribe requested_modem_path modem_path = do
    required ← gets (λ c. c.added_watch_resubscribe_required)
    (if not (modem_path == requested_modem_path) || required
        then resubscribe modem_path
        else pure tt)
    pure modem_path

  -- The try of `get_proxy_interface`: `none` if the path has the interface, or else the path that
  -- the refresh came to.
  messaging_or_refresh : (String → Exec Client Unit) → String → Exec Client (Option String)
  unfolding or_refresh refreshed_messaging
  messaging_or_refresh resubscribe modem_path =
      catch (do get_proxy_interface "messaging object" modem_path messaging_interface; pure none)
        (λ e.
          or_refresh (is_stale_modem_path e) modem_path
            (do refreshed_path ← refreshed_messaging resubscribe; pure (some refreshed_path)) e)

  or_at : (String → Exec Client Unit) → String → String → Option String → Exec Client String
  unfolding messaging_at
  or_at resubscribe requested modem_path none = messaging_at resubscribe requested modem_path
  or_at resubscribe requested modem_path (some refreshed_path) = pure refreshed_path

  messaging_with : (String → Exec Client Unit) → String → Exec Client String
  unfolding messaging_or_refresh or_at
  messaging_with resubscribe requested_modem_path = do
    modem_path ← get_cached_proxy_object "messaging object" requested_modem_path
    refreshed ← messaging_or_refresh resubscribe modem_path
    or_at resubscribe requested_modem_path modem_path refreshed

  -- the watcher itself: the handler is added at D-Bus, and then noted
  pub add_watcher : WatchKey → Exec Client Unit
  add_watcher watch_key = do
    watched ← gets (λ c. has_watch c.added_watch_keys watch_key)
    (if watched then pure tt else do
      call (λ fault cause. bus_error fault) (λ n. bus.on_added n watch_key.0)
      modify (λ c. record c {
        listening = watch_key ∷ c.listening;
        added_watch_keys = watch_key ∷ c.added_watch_keys;
        added_watch_handlers = c.added_watch_handlers ++ (watch_key ∷ []);
      }))

  -- _subscribe_added_watch, with the `_get_messaging_interface` of its flag
  subscribe_with : (String → Exec Client String) → String → CallbackKey → Exec Client Unit
  unfolding add_watcher
  subscribe_with messaging modem_path key = do
    watched ← gets (λ c. has_watch c.added_watch_keys (modem_path, key))
    (if watched
        then pure tt
        else do modem_path ← messaging modem_path; add_watcher (modem_path, key))

  subscribe_each : String → List CallbackKey → Exec Client Unit
  unfolding subscribe_with
  subscribe_each modem_path [] = pure tt
  subscribe_each modem_path (k ∷ ks) = do
    subscribe_with (messaging_with (λ path. pure tt)) modem_path k
    subscribe_each modem_path ks

  -- _subscribe_missing_added_watchers
  unfoldable pub subscribe_missing_added_watchers : String → Exec Client Unit
  unfolding subscribe_each set_required messaging_with
  subscribe_missing_added_watchers modem_path = do
    require_resubscribe
    keys ← gets (λ c. c.added_callbacks)
    subscribe_each modem_path keys
    set_required

  -- _resubscribe_added_watchers
  unfoldable pub resubscribe_added_watchers : String → Exec Client Unit
  resubscribe_added_watchers modem_path = do
    unsubscribe_all_added_watchers
    subscribe_missing_added_watchers modem_path

  -- _get_messaging_interface, with `resubscribe_added_watchers=True`
  unfoldable pub get_messaging_interface : String → Exec Client String
  unfolding messaging_with
  get_messaging_interface = messaging_with resubscribe_added_watchers

  cached_or_found : Option String → Exec Client String
  cached_or_found none = find_modem
  cached_or_found (some modem_path) = pure modem_path

  -- _ensure_modem_path
  unfoldable pub ensure_modem_path : Exec Client String
  unfolding cached_or_found
  ensure_modem_path = do
    cached ← gets (λ c. c.modem_path)
    modem_path ← cached_or_found cached
    required ← gets (λ c. c.added_watch_resubscribe_required)
    (if required then subscribe_missing_added_watchers modem_path else pure tt)
    pure modem_path

  -- watch_added
  unfoldable pub watch_added : AddedCallback → Exec Client Unit
  unfolding subscribe_with
  watch_added callback = do
    let key = callback_key callback
    modify (λ c. record c {
      added_callbacks =
          (if has_key c.added_callbacks key
            then c.added_callbacks
            else c.added_callbacks ++ (key ∷ []));
    })
    modem_path ← ensure_modem_path
    subscribe_with get_messaging_interface modem_path key

  -- _resubscribe_added_watchers_after_reconnect
  resubscribe_after_reconnect : Exec Client Unit
  resubscribe_after_reconnect = do
    required ← gets (λ c. c.added_watch_resubscribe_required)
    (if required
        then (do modem_path ← find_modem; subscribe_missing_added_watchers modem_path)
        else pure tt)

  require_if_needed : Exec Client Unit
  require_if_needed = modify (λ c. record c {
    added_watch_resubscribe_required =
        c.added_watch_resubscribe_required || needs_added_watch_resubscribe c;
  })

  -- the bus is gone: its handlers are gone with it
  pub drop_bus : Exec Client Unit
  drop_bus = modify (λ c. record c {
    has_bus = false;
    modem_path = none;
    added_watch_keys = [];
    added_watch_handlers = [];
    listening = [];
    added_watch_resubscribe_required = not (is_empty c.added_callbacks);
  })

  connect_anew : Exec Client Unit
  unfolding drop_bus
  connect_anew = do
    has_bus ← gets (λ c. c.has_bus)
    (if has_bus then drop_bus else pure tt)
    call (unavailable_from "failed to connect to system D-Bus") bus.connect
    modify (λ c. record c { has_bus = true })

  -- ModemManagerClient.connect
  unfoldable pub connect : Exec Client Unit
  unfolding connect_anew require_if_needed resubscribe_after_reconnect
  connect = do
    is_connected ← gets (λ c. c.has_bus && bus.connected c.calls)
    (if is_connected then pure tt else connect_anew)
    require_if_needed
    resubscribe_after_reconnect

  -- ModemManagerClient.disconnect
  unfoldable pub disconnect : Exec Client Unit
  unfolding close_bus
  disconnect = do
    has_bus ← gets (λ c. c.has_bus)
    (if has_bus then (do unsubscribe_all_added_watchers; close_bus) else pure tt)
