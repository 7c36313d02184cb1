-- ===== src/Modem/Client/Keys.antt =====
-- modem/client.py: the keys of watchers, as sets.
use sms_gateway_v.Base.{
  ◌≡◌, refl, ◌↔◌, true, false, ◌||◌, List, [], ◌∷◌, ◌++◌, arith, eq_iff, if◌then◌else◌,
}
use sms_gateway_v.Modem.Keys.{WatchKey, watch_eq, has_watch, without_watch}

pub watch_eq_iff : (a b : WatchKey) → (watch_eq a b ≡ true) ↔ (a ≡ b)
unfolding watch_eq
watch_eq_iff (p, (s, m, n)) (p', (s', m', n')) =
    (λ h. ground (arith, eq_iff p p', eq_iff s s'), λ h. ground (arith, eq_iff p p', eq_iff s s'))

pub has_watch-without :
    (k j : WatchKey) (xs : List WatchKey)
    → has_watch (without_watch k xs) j ≡ (if watch_eq k j then false else has_watch xs j)
unfolding has_watch without_watch
has_watch-without k j [] = ground arith
has_watch-without k j (x ∷ xs) =
    ground (arith, has_watch-without k j xs, watch_eq_iff x k, watch_eq_iff k j, watch_eq_iff x j)

pub has_watch-append :
    (k j : WatchKey) (xs : List WatchKey)
    → has_watch (xs ++ (k ∷ [])) j ≡ (has_watch xs j || watch_eq k j)
unfolding has_watch
has_watch-append k j [] = ground arith
has_watch-append k j (x ∷ xs) = ground (arith, has_watch-append k j xs)

-- no key twice
abbrev pub IsOnce : List WatchKey → Type 0
IsOnce [] = Unit {0}
IsOnce (x ∷ xs) = (has_watch xs x ≡ false) × IsOnce xs

pub without_watch-IsOnce :
    (k : WatchKey) (xs : List WatchKey) → IsOnce xs → IsOnce (without_watch k xs)
unfolding without_watch
without_watch-IsOnce k [] o = tt
without_watch-IsOnce k (x ∷ xs) o =
    ground (arith, without_watch-IsOnce k xs o.1, has_watch-without k x xs)

pub append-IsOnce :
    (k : WatchKey) (xs : List WatchKey)
    → has_watch xs k ≡ false
    → IsOnce xs
    → IsOnce (xs ++ (k ∷ []))
unfolding has_watch
append-IsOnce k [] h o = (refl, tt)
append-IsOnce k (x ∷ xs) h o =
    ground (arith, append-IsOnce k xs, has_watch-append k x xs, watch_eq_iff x k, watch_eq_iff k x)
