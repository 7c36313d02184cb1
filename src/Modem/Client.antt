-- ===== src/Modem/Client.antt =====
-- modem/client.py: the state of `ModemManagerClient`, and how it finds and reaches a modem.
pub mod Kept
pub mod Clock
pub mod Keys
pub mod Noted
use Prim.Native.String.{◌++◌ as append}
use sms_gateway_v.Base.{
  ℕ, suc, ◌+◌, String, Bool, true, false, ◌&&◌, not, Option, none, some, List, [], ◌∷◌, nat_eq,
  ◌==◌, contains, if◌then◌else◌,
}
use sms_gateway_v.Exec.{
  Exec, Exception, Fault, unknown_object, interface_not_found, foreign, unexpected, modem,
  unavailable, unavailable_by, modem_not_found, pure, raise, gets, modify, catch, ◌>>=◌, ◌>>◌,
}
use sms_gateway_v.Modem.Keys.{
  WatchKey, CallbackKey, without_watch, has_watch, has_key, key_eq, watch_eq,
}
use sms_gateway_v.Modem.Bus.{Bus, Reply, answered, failed}

abbrev pub is_empty {ℓ} : {A : Type ℓ} → List A → Bool
is_empty [] = true
is_empty (x ∷ xs) = false

abbrev pub modem_interface : String
modem_interface = "org.freedesktop.ModemManager1.Modem"

abbrev pub modem_manager_object_path : String
modem_manager_object_path = "/org/freedesktop/ModemManager1"

-- two texts with a space between them
pub words : String → String → String
words a b = append a (append " " b)

pub record Client : Type 0 where
  -- `self._bus is not None`
  pub has_bus : Bool
  pub modem_path : Option String
  -- the keys of _added_callbacks
  pub added_callbacks : List CallbackKey
  pub added_watch_keys : List WatchKey
  -- the keys of _added_watch_handlers
  pub added_watch_handlers : List WatchKey
  pub added_watch_resubscribe_required : Bool
  -- the handlers that D-Bus calls on a new message
  pub listening : List WatchKey
  -- the objects whose changes of properties D-Bus reports
  pub reported : List String
  -- how many calls were made, and the time
  pub calls : ℕ
  pub now : ℕ

-- `raise ModemManagerUnavailable(...) from exc`
abbrev pub unavailable_from : String → Fault → String → Exception
unavailable_from message fault cause = modem (unavailable_by fault) message

-- `except DBUS_OPERATION_ERRORS as exc`, which a foreign exception passes
unfoldable pub operation_error : (Fault → String → Exception) → Fault → String → Exception
operation_error handler foreign cause = unexpected
operation_error handler fault cause = handler fault cause

-- A try of a single call: what it answers, or what the handler makes of the exception.
result_of : {A : Type 0} → (Fault → String → Exception) → Reply A → Exec Client A
unfolding operation_error
result_of handler (answered a) = pure a
result_of handler (failed fault cause) = raise (operation_error handler fault cause)

-- `object_path == self._modem_path`
abbrev pub is_cached : String → Option String → Bool
is_cached path none = false
is_cached path (some cached) = path == cached

-- _is_unknown_object_unavailable
pub is_unknown_object : Exception → Bool
is_unknown_object (modem (unavailable_by unknown_object) message) = true
is_unknown_object e = false

-- _is_stale_modem_path_unavailable
pub is_stale_modem_path : Exception → Bool
is_stale_modem_path (modem (unavailable_by interface_not_found) message) = true
is_stale_modem_path (modem (unavailable_by unknown_object) message) = true
is_stale_modem_path e = false

modems_of : List (String × List String) → List String
modems_of [] = []
modems_of ((path, interfaces) ∷ objects) =
    let rest = modems_of objects in
    if contains interfaces modem_interface then path ∷ rest else rest

-- _require_bus
unfoldable pub require_bus : Exec Client Unit
require_bus = do
  has_bus ← gets (λ c. c.has_bus)
  (if has_bus then pure tt else raise (modem unavailable "not connected to system D-Bus"))

take_first : List String → Exec Client String
take_first [] = raise (modem modem_not_found "no ModemManager modem object found")
take_first (modem_path ∷ paths) = do
  modify (λ c. record c { modem_path = some modem_path })
  pure modem_path

-- the call of `off_added`, whose failure is logged
silence_added : WatchKey → Reply Unit → Exec Client Unit
silence_added k (answered _) = modify (λ c. record c { listening = without_watch k c.listening })
silence_added k (failed foreign cause) = raise unexpected
silence_added k (failed fault cause) = pure tt

-- `self._added_watch_resubscribe_required = bool(self._added_callbacks)`
unfoldable pub require_resubscribe : Exec Client Unit
require_resubscribe =
    modify (λ c. record c { added_watch_resubscribe_required = not (is_empty c.added_callbacks) })

forget_modem_path : Exec Client Unit
forget_modem_path = modify (λ c. record c { modem_path = none })

-- What is done on a failure at the path: another modem is looked for if the path is the cached
-- one and the failure says that it is stale.
unfoldable pub or_refresh : {A : Type 0} → Bool → String → Exec Client A → Exception → Exec Client A
or_refresh stale path again e = do
  cached ← gets (λ c. c.modem_path)
  (if stale && is_cached path cached then again else raise e)

module _ ⦃bus : Bus⦄ where
  -- One more call was made.
  abbrev pub after_call : Client → Client
  after_call c = record c { calls = suc c.calls; now = c.now + bus.takes c.calls }

  unfoldable pub call : {A : Type 0} → (Fault → String → Exception) → (ℕ → Reply A) → Exec Client A
  unfolding result_of
  call handler ask c = result_of handler (ask c.calls) (after_call c)

  -- _list_modem_paths
  unfoldable pub list_modem_paths : Exec Client (List String)
  unfolding modems_of
  list_modem_paths = do
    require_bus
    call (unavailable_from "failed to query ModemManager objects")
        (λ n. bus.introspect n modem_manager_object_path)
    managed_objects ←
        call (unavailable_from "failed to query ModemManager objects") bus.managed_objects
    pure (modems_of managed_objects)

  -- find_modem
  unfoldable pub find_modem : Exec Client String
  unfolding take_first
  find_modem = do modem_paths ← list_modem_paths; take_first modem_paths

  -- _get_proxy_object_once and the handler of its caller
  query_proxy : String → String → Exec Client Unit
  query_proxy object_kind object_path = do
    require_bus
    call (unavailable_from (words (words "failed to query" object_kind) object_path))
        (λ n. bus.introspect n object_path)

  -- _get_proxy_object, with `refresh_cached_modem=False`
  unfoldable pub get_proxy_object : String → String → Exec Client String
  unfolding query_proxy
  get_proxy_object object_kind object_path = do
    query_proxy object_kind object_path
    pure object_path

  -- _get_proxy_interface
  unfoldable pub get_proxy_interface : String → String → String → Exec Client Unit
  get_proxy_interface object_kind object_path interface_name =
      call
        (unavailable_from (
          words (words (words (words "failed to query" object_kind) "interface") interface_name)
            (words "on" object_path)))
        (λ n. bus.get_interface n object_path interface_name)

  off_added : WatchKey → Exec Client Unit
  unfolding silence_added
  off_added k c = silence_added k (bus.off_added c.calls k.0) (after_call c)

  -- _unsubscribe_added_watcher
  unfoldable pub unsubscribe_added_watcher : WatchKey → Exec Client Unit
  unfolding off_added
  unsubscribe_added_watcher watch_key = do
    modify (λ c. record c { added_watch_keys = without_watch watch_key c.added_watch_keys })
    has_info ← gets (λ c. has_watch c.added_watch_handlers watch_key)
    modify (λ c. record c { added_watch_handlers = without_watch watch_key c.added_watch_handlers })
    (if has_info then off_added watch_key else pure tt)

  unsubscribe_each : List WatchKey → Exec Client Unit
  unsubscribe_each [] = pure tt
  unsubscribe_each (k ∷ ks) = do unsubscribe_added_watcher k; unsubscribe_each ks

  -- _unsubscribe_all_added_watchers
  unfoldable pub unsubscribe_all_added_watchers : Exec Client Unit
  unfolding unsubscribe_each
  unsubscribe_all_added_watchers = do
    watch_keys ← gets (λ c. c.added_watch_handlers)
    unsubscribe_each watch_keys
    modify (λ c. record c { added_watch_keys = [] })

  -- _prepare_added_watchers_for_modem_path_change, and the search for the modem that follows it
  unfoldable pub refresh_modem_path : Exec Client String
  unfolding forget_modem_path
  refresh_modem_path = do
    unsubscribe_all_added_watchers
    require_resubscribe
    forget_modem_path
    find_modem

  -- _get_proxy_object, with `refresh_cached_modem=True` and `resubscribe_added_watchers=False`
  unfoldable pub get_cached_proxy_object : String → String → Exec Client String
  unfolding or_refresh is_unknown_object query_proxy
  get_cached_proxy_object object_kind object_path =
      catch (do query_proxy object_kind object_path; pure object_path)
        (λ e.
          or_refresh (is_unknown_object e) object_path
            (do refreshed_path ← refresh_modem_path; get_proxy_object object_kind refreshed_path) e)
