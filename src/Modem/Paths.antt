-- ===== src/Modem/Paths.antt =====
-- modem/client.py: `_sms_path_sort_key`, and the sort of paths by it.
pub mod Sorted
use sms_gateway_v.Base.{String, Bool, true, false, List, [], ◌∷◌, if◌then◌else◌}
use sms_gateway_v.Relay.Messages.Order.{path_index, path_le, index_then}

-- _sms_path_sort_key
pub sms_path_key_le : String → String → Bool
sms_path_key_le a b = index_then (path_index a) (path_index b) (path_le a b)

insert_path : String → List String → List String
insert_path p [] = p ∷ []
insert_path p (q ∷ qs) = if sms_path_key_le p q then p ∷ q ∷ qs else q ∷ insert_path p qs

-- `sorted(sms_paths, key=self._sms_path_sort_key)`
unfoldable pub sort_paths : List String → List String
unfolding insert_path
sort_paths [] = []
sort_paths (p ∷ ps) = insert_path p (sort_paths ps)
