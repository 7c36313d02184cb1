-- ===== src/Relay/Messages/Order/Sorted.antt =====
-- relay/relay.py: the messages are drained in the order of their keys.
use sms_gateway_v.Base.{
  ℕ, suc, String, Option, ◌≡◌, refl, Bool, true, false, List, [], ◌∷◌, if◌then◌else◌, arith,
  Option-cases,
}
use sms_gateway_v.Texts.{compare-total}
use sms_gateway_v.Queue.Models.{IncomingSms}
use sms_gateway_v.Relay.Messages.Order.{
  SortKey, message_sort_key, path_le, number_then, index_then, stamp_then, key_le, insert_message,
  sort_messages,
}

-- no message comes after one with a greater key
abbrev pub InOrder : List IncomingSms → Type 0
InOrder [] = Unit {0}
InOrder (m ∷ []) = Unit {0}
InOrder (m ∷ n ∷ ms) = (key_le (message_sort_key m) (message_sort_key n) ≡ true) × InOrder (n ∷ ms)

-- how many of the messages satisfy a test
pub count : (IncomingSms → Bool) → List IncomingSms → ℕ
count p [] = 0
count p (m ∷ ms) = if p m then suc (count p ms) else count p ms

pub path_le-total : (a b : String) → path_le a b ≡ false → path_le b a ≡ true
unfolding path_le
path_le-total a b e = compare-total a b e

pub index_then-total :
    (a b : Option ℕ) (p q : Bool)
    → (p ≡ false → q ≡ true)
    → index_then a b p ≡ false
    → index_then b a q ≡ true
unfolding index_then number_then
index_then-total a b p q total e = ground (arith, total, Option-cases a, Option-cases b)

key_le-total : (a b : SortKey) → key_le a b ≡ false → key_le b a ≡ true
unfolding key_le index_then stamp_then number_then
key_le-total a b e = ground (
  arith,
  path_le-total a.path b.path,
  Option-cases a.timestamp,
  Option-cases b.timestamp,
  Option-cases a.index,
  Option-cases b.index,
)

insert_message-InOrder :
    (m : IncomingSms) (ms : List IncomingSms) → InOrder ms → InOrder (insert_message m ms)
unfolding insert_message
insert_message-InOrder m [] s = tt
insert_message-InOrder m (x ∷ []) s =
    ground (arith, key_le-total (message_sort_key m) (message_sort_key x))
insert_message-InOrder m (x ∷ y ∷ ms) s = ground (
  arith,
  key_le-total (message_sort_key m) (message_sort_key x),
  insert_message-InOrder m (y ∷ ms),
)

insert_message-count :
    (p : IncomingSms → Bool) (m : IncomingSms) (ms : List IncomingSms)
    → count p (insert_message m ms) ≡ count p (m ∷ ms)
unfolding insert_message count
insert_message-count p m [] = refl
insert_message-count p m (x ∷ ms) = ground (arith, insert_message-count p m ms)

sort_messages-count :
    (p : IncomingSms → Bool) (ms : List IncomingSms) → count p (sort_messages ms) ≡ count p ms
unfolding sort_messages count
sort_messages-count p [] = refl
sort_messages-count p (m ∷ ms) =
    ground (arith, insert_message-count p m (sort_messages ms), sort_messages-count p ms)

sort_messages-InOrder : (ms : List IncomingSms) → InOrder (sort_messages ms)
unfolding sort_messages
sort_messages-InOrder [] = tt
sort_messages-InOrder (m ∷ ms) =
    insert_message-InOrder m (sort_messages ms) (sort_messages-InOrder ms)

-- The drained messages are in the order of their keys, and are the messages that were read:
-- whatever the test, as many satisfy it as before.
pub sort_messages-sorted :
    (ms : List IncomingSms)
    → InOrder (sort_messages ms)
      × ((p : IncomingSms → Bool) → count p (sort_messages ms) ≡ count p ms)
sort_messages-sorted ms = (sort_messages-InOrder ms, λ p. sort_messages-count p ms)
