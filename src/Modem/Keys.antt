-- ===== src/Modem/Keys.antt =====
-- modem/client.py: the keys of the callbacks and watchers, as sets and tables keep them.
use sms_gateway_v.Base.{
  ℕ, String, Bool, true, false, ◌&&◌, List, [], ◌∷◌, nat_eq, ◌==◌, if◌then◌else◌,
}

-- `_callback_key`: the kind of the callback, and the identities of its object and function
abbrev pub CallbackKey : Type 0
CallbackKey = String × ℕ × ℕ

abbrev pub WatchKey : Type 0
WatchKey = String × CallbackKey

-- A callback is known by its key: `("method", id(self), id(func))` or `("callable", id, 0)`.
pub data AddedCallback : Type 0 where
  method : ℕ → ℕ → AddedCallback
  function : ℕ → AddedCallback

unfoldable pub callback_key : AddedCallback → CallbackKey
callback_key (method self func) = ("method", self, func)
callback_key (function f) = ("callable", f, 0)

unfoldable pub key_eq : CallbackKey → CallbackKey → Bool
key_eq (kind, a, b) (kind', a', b') = kind == kind' && (nat_eq a a' && nat_eq b b')

unfoldable pub watch_eq : WatchKey → WatchKey → Bool
unfolding key_eq
watch_eq (path, k) (path', k') = path == path' && key_eq k k'

unfoldable pub has_key : List CallbackKey → CallbackKey → Bool
has_key [] k = false
has_key (x ∷ xs) k = if key_eq x k then true else has_key xs k

unfoldable pub has_watch : List WatchKey → WatchKey → Bool
has_watch [] k = false
has_watch (x ∷ xs) k = if watch_eq x k then true else has_watch xs k

-- `discard` of a set without doubles, or `pop` of a dict
unfoldable pub without_watch : WatchKey → List WatchKey → List WatchKey
without_watch k [] = []
without_watch k (x ∷ xs) = if watch_eq x k then without_watch k xs else x ∷ without_watch k xs
