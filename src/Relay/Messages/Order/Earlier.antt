-- ===== src/Relay/Messages/Order/Earlier.antt =====
-- relay/relay.py: what the order of the messages is, without the keys.
use sms_gateway_v.Base.{ℕ, ◌≤◌, ◌≡◌, String, Bool, true, Option, none, some, List, [], ◌∷◌, arith}
use sms_gateway_v.Queue.Models.{DateTime, IncomingSms}
use sms_gateway_v.Relay.Messages.Order.{
  SortKey, message_sort_key, key_le, number_then, index_then, stamp_then, path_index,
}
use sms_gateway_v.Relay.Messages.Order.Sorted.{InOrder}

-- a path with no number comes before those with one, which come by the number
abbrev pub Numbered : Option ℕ → Option ℕ → Type 0
Numbered none j = Unit {0}
Numbered (some i) none = ⊥
Numbered (some i) (some j) = i ≤ j

-- A message with a time comes before those with none, which come by the number of their path;
-- messages with a time come by the time.
abbrev pub Earlier : Option DateTime → Option DateTime → Option ℕ → Option ℕ → Type 0
Earlier (some t) (some u) i j = t.instant ≤ u.instant
Earlier (some t) none i j = Unit {0}
Earlier none (some u) i j = ⊥
Earlier none none i j = Numbered i j

abbrev pub AreOldestFirst : List IncomingSms → Type 0
AreOldestFirst [] = Unit {0}
AreOldestFirst (m ∷ []) = Unit {0}
AreOldestFirst (m ∷ n ∷ ms) =
    Earlier m.timestamp n.timestamp (path_index m.object_path) (path_index n.object_path)
    × AreOldestFirst (n ∷ ms)

abbrev key_of : Option DateTime → Option ℕ → String → SortKey
key_of (some t) i p = record { timestamp = some t.instant; index = none; path = p }
key_of none i p = record { timestamp = none; index = i; path = p }

key_of-message_sort_key :
    (m : IncomingSms)
    → message_sort_key m ≡ key_of m.timestamp (path_index m.object_path) m.object_path
unfolding message_sort_key
key_of-message_sort_key m = ground arith

numbered : (i j : Option ℕ) (next : Bool) → index_then i j next ≡ true → Numbered i j
unfolding index_then number_then
numbered none j next e = tt
numbered (some i) none next e = absurd (ground arith)
numbered (some i) (some j) next e = ground arith

earlier :
    (t u : Option DateTime) (i j : Option ℕ) (p q : String)
    → key_le (key_of t i p) (key_of u j q) ≡ true
    → Earlier t u i j
unfolding key_le stamp_then number_then
earlier (some t) (some u) i j p q e = ground arith
earlier (some t) none i j p q e = tt
earlier none (some u) i j p q e = absurd (ground arith)
earlier none none i j p q e = numbered i j _ e

pub oldest_first : (ms : List IncomingSms) → InOrder ms → AreOldestFirst ms
oldest_first [] s = tt
oldest_first (m ∷ []) s = tt
oldest_first (m ∷ n ∷ ms) s =
    let i = path_index m.object_path in
    let j = path_index n.object_path in
    let le : key_le (key_of m.timestamp i m.object_path) (key_of n.timestamp j n.object_path)
        ≡ true =
      cc (key_of-message_sort_key m, key_of-message_sort_key n, s.0) in
    (earlier m.timestamp n.timestamp i j m.object_path n.object_path le, oldest_first (n ∷ ms) s.1)
