-- ===== src/Queue/Directory/Names.antt =====
-- The order of a listing: paths are compared by their names, `<stem>.json`, as texts.
use Prim.Native.String.{◌++◌ as append, compare}
use text.Mathlib.Text.{is_le}
use sms_gateway_v.Base.{
  String, ◌≡◌, refl, Bool, false, ◌||◌, List, [], ◌∷◌, arith, ◌==◌, eq_iff, contains, length, suc,
  if◌then◌else◌,
}

pub name_le : String → String → Bool
name_le a b = is_le (compare (append a ".json") (append b ".json"))

unfoldable pub insert_name : String → List String → List String
insert_name a [] = a ∷ []
insert_name a (x ∷ xs) = if name_le a x then a ∷ x ∷ xs else x ∷ insert_name a xs

pub contains-insert_name :
    (a k : String) (xs : List String) → contains (insert_name a xs) k ≡ (a == k || contains xs k)
unfolding insert_name
contains-insert_name a k [] = refl
contains-insert_name a k (x ∷ xs) = ground (arith, contains-insert_name a k xs)

pub length-insert_name :
    (a : String) (xs : List String) → length (insert_name a xs) ≡ suc (length xs)
unfolding insert_name
length-insert_name a [] = refl
length-insert_name a (x ∷ xs) = ground (arith, length-insert_name a xs)

abbrev pub Distinct : List String → Type 0
Distinct [] = Unit {0}
Distinct (x ∷ xs) = (contains xs x ≡ false) × Distinct xs

pub Distinct-insert_name :
    (a : String) (xs : List String)
    → contains xs a ≡ false
    → Distinct xs
    → Distinct (insert_name a xs)
unfolding insert_name
Distinct-insert_name a [] h d = ground arith
Distinct-insert_name a (x ∷ xs) h d =
    ground (arith, Distinct-insert_name a xs, contains-insert_name a x xs, eq_iff a x, eq_iff x a)
