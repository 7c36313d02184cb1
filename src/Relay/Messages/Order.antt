-- ===== src/Relay/Messages/Order.antt =====
-- relay/relay.py: `_message_sort_key`, and the sort by it.
pub mod Sorted
pub mod Earlier
use Prim.Native.Char.{code}
use Prim.Native.String.{compare}
use Prim.Native.Nat.{Ordering}
use text.Mathlib.Text.{is_le}
use sms_gateway_v.Base.{
  ℕ, suc, ◌+◌, ◌-◌, ◌*◌, String, Bool, true, false, ◌&&◌, Option, none, some, List, [], ◌∷◌, ltb,
  leb, nat_eq, if◌then◌else◌,
}
use sms_gateway_v.Queue.Models.{DateTime, IncomingSms}
use sms_gateway_v.Telegram.Message.{Chars, chars}

-- `path.rsplit("/", maxsplit=1)[-1]`: what follows the last slash
suffix_from : Chars → Chars → Chars
suffix_from found [] = found
suffix_from found (c ∷ cs) = suffix_from (if nat_eq c b'/' then cs else found) cs

pub suffix : Chars → Chars
unfolding suffix_from
suffix path = suffix_from path path

-- `int(suffix) if suffix.isdecimal() else -1`, with `none` for -1
digits_value : ℕ → Chars → Option ℕ
digits_value acc [] = some acc
digits_value acc (c ∷ cs) =
    let rest = digits_value (acc * 10 + (c - b'0')) cs in
    if leb b'0' c && leb c b'9' then rest else none

decimal_value : Chars → Option ℕ
unfolding digits_value
decimal_value [] = none
decimal_value (c ∷ cs) = digits_value 0 (c ∷ cs)

pub path_index : String → Option ℕ
unfolding decimal_value suffix
path_index path = decimal_value (suffix (chars path))

-- A key compares by the timestamp if there is one, and before all keys that have none; then by the
-- index of the path; then by the path.
pub record SortKey : Type 0 where
  pub timestamp : Option ℕ
  pub index : Option ℕ
  pub path : String

pub message_sort_key : IncomingSms → SortKey
unfolding path_index
message_sort_key m = elim m.timestamp [
  | some t ↦ record { timestamp = some t.instant; index = none; path = m.object_path }
  | none ↦ record { timestamp = none; index = path_index m.object_path; path = m.object_path }
]

pub path_le : String → String → Bool
path_le a b = is_le (compare a b)

pub number_then : ℕ → ℕ → Bool → Bool
number_then a b next = if ltb a b then true else if ltb b a then false else next

pub index_then : Option ℕ → Option ℕ → Bool → Bool
unfolding number_then
index_then none none next = next
index_then none (some b) next = true
index_then (some a) none next = false
index_then (some a) (some b) next = number_then a b next

stamp_then : Option ℕ → Option ℕ → Bool → Bool
unfolding number_then
stamp_then none none next = next
stamp_then none (some b) next = false
stamp_then (some a) none next = true
stamp_then (some a) (some b) next = number_then a b next

pub key_le : SortKey → SortKey → Bool
unfolding index_then stamp_then path_le
key_le a b = stamp_then a.timestamp b.timestamp (index_then a.index b.index (path_le a.path b.path))

insert_message : IncomingSms → List IncomingSms → List IncomingSms
insert_message m [] = m ∷ []
insert_message m (x ∷ xs) =
    if key_le (message_sort_key m) (message_sort_key x) then m ∷ x ∷ xs else x ∷ insert_message m xs

-- `messages.sort(key=self._message_sort_key)`, which keeps the order of equal keys
unfoldable pub sort_messages : List IncomingSms → List IncomingSms
unfolding insert_message
sort_messages [] = []
sort_messages (m ∷ ms) = insert_message m (sort_messages ms)
