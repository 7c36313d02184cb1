-- ===== src/Queue/Mark/Conserves.antt =====
-- What becomes of a claimed item moves its file, or rewrites it in place.
use sms_gateway_v.Base.{ℕ, String, ◌≡◌, Bool, true, Bool-cases, inl, inr, is_some}
use sms_gateway_v.Exec.{Exec, Exception, file_not_found, ◌>>=◌}
use sms_gateway_v.Exec.Keeps.{Keeps, Keeps-bind}
use sms_gateway_v.Queue.Models.{DateTime, ItemStatus, QueueItem, Codec, Hashing}
use sms_gateway_v.Queue.Directory.{file}
use sms_gateway_v.Queue.State.{SubDir, Queue, save_item}
use sms_gateway_v.Queue.Accounted.{
  IsAccounted, account_rules, save_item-IsAccounted, Keeps-dirs_or_raise,
}
use sms_gateway_v.Queue.Mark.{
  as_item_not_found, move_from_processing, move_back_to_pending, require_processing, set_status,
  mark_sent, mark_failed, attempted, update_attempt,
}

module _ {Text : Type 0} {P : Queue Text → Type 0} where
  Keeps-as_item_not_found :
      {A : Type 0} (e : Exception) → Keeps P (as_item_not_found {S = Queue Text} {A = A} e)
  unfolding as_item_not_found
  Keeps-as_item_not_found file_not_found = search account_rules
  Keeps-as_item_not_found _ = search account_rules

  -- What follows the check may use that the file is there.
  Keeps-require :
      {A : Type 0} (stem : String) (rest : Exec (Queue Text) A)
      → ((q : Queue Text) → is_some (file stem q.dirs.processing) ≡ true → P q → P (rest q).1)
      → Keeps P (require_processing {Text = Text} stem >>= λ _. rest)
  unfolding require_processing ◌>>=◌
  Keeps-require stem rest k = record {
    at = λ q p. elim (Bool-cases (is_some (file stem q.dirs.processing))) [
      | inl there ↦ rw (there, require_processing) (k q there p)
      | inr gone ↦ rw (gone, require_processing) p
    ];
  }

module _ {Text : Type 0} (n : String → ℕ) where
  move_from_processing-IsAccounted :
      (stem : String) → Keeps (IsAccounted n) (move_from_processing {Text = Text} stem SubDir.sent)
  unfolding move_from_processing
  move_from_processing-IsAccounted stem = search (account_rules, Keeps-as_item_not_found)

  move_to_failed-IsAccounted :
      (stem : String)
      → Keeps (IsAccounted n) (move_from_processing {Text = Text} stem SubDir.failed)
  unfolding move_from_processing
  move_to_failed-IsAccounted stem = search (account_rules, Keeps-as_item_not_found)

  pub move_back_to_pending-IsAccounted :
      (item : QueueItem) → Keeps (IsAccounted n) (move_back_to_pending {Text = Text} item)
  unfolding move_back_to_pending
  move_back_to_pending-IsAccounted item = search (account_rules, Keeps-as_item_not_found)

module _ {Text : Type 0} ⦃hashing : Hashing⦄ (n : String → ℕ) where
  set_status-IsAccounted :
      (now : ℕ) (item : QueueItem) (st : ItemStatus)
      → Keeps (IsAccounted n) (set_status {Text = Text} now item st)
  unfolding set_status
  set_status-IsAccounted now item st = search account_rules

  pub mark_sent-IsAccounted :
      (now : ℕ) (item : QueueItem) → Keeps (IsAccounted n) (mark_sent {Text = Text} now item)
  unfolding mark_sent
  mark_sent-IsAccounted now item =
      search (account_rules, move_from_processing-IsAccounted, set_status-IsAccounted)

module _ {Text : Type 0} ⦃codec : Codec Text⦄ ⦃hashing : Hashing⦄ (n : String → ℕ) where
  saved_then :
      (now : ℕ) (item : QueueItem) (q : Queue Text) (rest : Exec (Queue Text) Unit)
      → is_some (file item.id q.dirs.processing) ≡ true
      → IsAccounted n q
      → Keeps (IsAccounted n) rest
      → IsAccounted n ((save_item now item SubDir.processing >>= λ _. rest) q).1
  unfolding save_item ◌>>=◌
  saved_then now item q rest there a k = k.at _ (save_item-IsAccounted n now item q there a)

  failed_rest-IsAccounted :
      (now : ℕ) (item : QueueItem)
      → Keeps (IsAccounted n) (
          move_from_processing {Text = Text} item.id SubDir.failed >>= λ _.
          set_status now item ItemStatus.failed)
  failed_rest-IsAccounted now item =
      search (account_rules, move_to_failed-IsAccounted, set_status-IsAccounted)

  pub mark_failed-IsAccounted :
      (now : ℕ) (item : QueueItem) (permanently : Bool)
      → Keeps (IsAccounted n) (mark_failed {Text = Text} now item permanently)
  unfolding mark_failed
  mark_failed-IsAccounted now item permanently = Keeps-bind _ _ Keeps-dirs_or_raise λ _.
      Keeps-require item.id _ λ q there a.
        saved_then now (record item { permanently_failed = permanently }) q _ there a
          (failed_rest-IsAccounted now item)

module _ {Text : Type 0} ⦃codec : Codec Text⦄ (n : String → ℕ) where
  pub update_attempt-IsAccounted :
      (now : ℕ) (item : QueueItem) (at : DateTime)
      → Keeps (IsAccounted n) (update_attempt {Text = Text} now item at)
  unfolding update_attempt save_item ◌>>=◌
  update_attempt-IsAccounted now item at = Keeps-bind _ _ Keeps-dirs_or_raise λ _.
      Keeps-require item.id _
        λ q there a. save_item-IsAccounted n now (attempted now item at) q there a
