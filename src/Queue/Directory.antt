-- ===== src/Queue/Directory.antt =====
-- A directory of the state tree: the files named `<stem>.json`, by their stems. A file has its
-- text and the time of its last write. Names are unique, since a write replaces the old entry.
pub mod Names
pub mod Left
use sms_gateway_v.Base.{
  ℕ, String, ◌≡◌, refl, Bool, Option, none, some, List, [], ◌∷◌, arith, ◌==◌, eq_iff, eq_refl,
  is_some, if◌then◌else◌,
}
use sms_gateway_v.Queue.Directory.Names.{insert_name, contains-insert_name}
use sms_gateway_v.Base.{contains, ◌||◌, false, length, suc}
use sms_gateway_v.Queue.Directory.Names.{Distinct, Distinct-insert_name, length-insert_name}

pub record File (Text : Type 0) : Type 0 where
  pub payload : Text
  pub mtime : ℕ

abbrev pub Directory : Type 0 → Type 0
Directory Text = List (String × File Text)

module _ {Text : Type 0} where
  unfoldable pub file : String → Directory Text → Option (File Text)
  file k [] = none
  file k ((j, f) ∷ d) = if j == k then some f else file k d

  unfoldable pub unlink : String → Directory Text → Directory Text
  unlink k [] = []
  unlink k ((j, f) ∷ d) = let rest = unlink k d in if j == k then rest else (j, f) ∷ rest

  unfoldable pub put : String → File Text → Directory Text → Directory Text
  put k f d = (k, f) ∷ unlink k d

  -- `sorted(directory.glob("*.json"))`, as stems
  unfoldable pub list_items_sorted : Directory Text → List String
  list_items_sorted [] = []
  list_items_sorted ((j, f) ∷ d) = insert_name j (list_items_sorted d)

  pub file-unlink :
      (k j : String) (d : Directory Text)
      → file j (unlink k d) ≡ (if k == j then none else file j d)
  unfolding file unlink
  file-unlink k j [] = ground arith
  file-unlink k j ((i, f) ∷ d) =
      ground (arith, file-unlink k j d, eq_iff i k, eq_iff i j, eq_iff k j)

  pub file-put :
      (k j : String) (f : File Text) (d : Directory Text)
      → file j (put k f d) ≡ (if k == j then some f else file j d)
  unfolding file put
  file-put k j f d = ground (arith, file-unlink k j d)

  -- The listing has the stems of the files and no others.
  pub contains-list_items_sorted :
      (k : String) (d : Directory Text) → contains (list_items_sorted d) k ≡ is_some (file k d)
  unfolding file list_items_sorted
  contains-list_items_sorted k [] = refl
  contains-list_items_sorted k ((j, f) ∷ d) =
      ground (arith, contains-insert_name j k (list_items_sorted d), contains-list_items_sorted k d)

  abbrev pub IsUnique : Directory Text → Type 0
  IsUnique [] = Unit {0}
  IsUnique ((j, f) ∷ d) = (file j d ≡ none) × IsUnique d

  pub unlink-IsUnique : (k : String) (d : Directory Text) → IsUnique d → IsUnique (unlink k d)
  unfolding unlink
  unlink-IsUnique k [] u = tt
  unlink-IsUnique k ((j, f) ∷ d) u =
      ground (arith, unlink-IsUnique k d u.1, file-unlink k j d, eq_iff j k, eq_iff k j)

  pub put-IsUnique :
      (k : String) (f : File Text) (d : Directory Text) → IsUnique d → IsUnique (put k f d)
  unfolding put
  put-IsUnique k f d u = (simp (file-unlink, eq_refl), unlink-IsUnique k d u)

  -- A listing names each file once.
  pub list_items_sorted-Distinct :
      (d : Directory Text) → IsUnique d → Distinct (list_items_sorted d)
  unfolding list_items_sorted
  list_items_sorted-Distinct [] u = tt
  list_items_sorted-Distinct ((j, f) ∷ d) u =
      Distinct-insert_name j (list_items_sorted d) (ground (arith, contains-list_items_sorted j d))
        (list_items_sorted-Distinct d u.1)

  pub length-list_items_sorted : (d : Directory Text) → length (list_items_sorted d) ≡ length d
  unfolding list_items_sorted
  length-list_items_sorted [] = refl
  length-list_items_sorted ((j, f) ∷ d) =
      omega (arith, length-insert_name j (list_items_sorted d), length-list_items_sorted d)

pub ruleset directory_laws = (file-unlink, file-put, eq_refl)
