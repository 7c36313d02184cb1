-- ===== src/Modem/Paths/Sorted.antt =====
-- modem/client.py: the sort of paths sorts, and keeps each of them.
use sms_gateway_v.Base.{
  ℕ, suc, String, ◌≡◌, refl, Bool, true, false, List, [], ◌∷◌, if◌then◌else◌, arith,
}
use sms_gateway_v.Relay.Messages.Order.{path_le, path_index}
use sms_gateway_v.Relay.Messages.Order.Sorted.{path_le-total, index_then-total}
use sms_gateway_v.Modem.Paths.{sms_path_key_le, insert_path, sort_paths}

-- no path comes after one with a greater key
abbrev pub InPathOrder : List String → Type 0
InPathOrder [] = Unit {0}
InPathOrder (p ∷ []) = Unit {0}
InPathOrder (p ∷ q ∷ ps) = (sms_path_key_le p q ≡ true) × InPathOrder (q ∷ ps)

-- how many of the paths satisfy a test
pub count_paths : (String → Bool) → List String → ℕ
count_paths test [] = 0
count_paths test (p ∷ ps) = if test p then suc (count_paths test ps) else count_paths test ps

sms_path_key_le-total : (a b : String) → sms_path_key_le a b ≡ false → sms_path_key_le b a ≡ true
unfolding sms_path_key_le
sms_path_key_le-total a b e =
    index_then-total (path_index a) (path_index b) (path_le a b) (path_le b a) (path_le-total a b) e

insert_path-InPathOrder :
    (p : String) (ps : List String) → InPathOrder ps → InPathOrder (insert_path p ps)
unfolding insert_path
insert_path-InPathOrder p [] s = tt
insert_path-InPathOrder p (x ∷ []) s = ground (arith, sms_path_key_le-total p x)
insert_path-InPathOrder p (x ∷ y ∷ ps) s =
    ground (arith, sms_path_key_le-total p x, insert_path-InPathOrder p (y ∷ ps))

insert_path-count :
    (test : String → Bool) (p : String) (ps : List String)
    → count_paths test (insert_path p ps) ≡ count_paths test (p ∷ ps)
unfolding insert_path count_paths
insert_path-count test p [] = refl
insert_path-count test p (x ∷ ps) = ground (arith, insert_path-count test p ps)

pub sort_paths-InPathOrder : (ps : List String) → InPathOrder (sort_paths ps)
unfolding sort_paths
sort_paths-InPathOrder [] = tt
sort_paths-InPathOrder (p ∷ ps) =
    insert_path-InPathOrder p (sort_paths ps) (sort_paths-InPathOrder ps)

pub sort_paths-count :
    (test : String → Bool) (ps : List String)
    → count_paths test (sort_paths ps) ≡ count_paths test ps
unfolding sort_paths count_paths
sort_paths-count test [] = refl
sort_paths-count test (p ∷ ps) =
    ground (arith, insert_path-count test p (sort_paths ps), sort_paths-count test ps)
