-- ===== src/Queue/Claim/Fuelled.antt =====
-- `claim_next` and `move_back_to_pending` raise only exceptions of the code.
use sms_gateway_v.Base.{ℕ, String, ◌≡◌, true, Option, none, some, List, [], ◌∷◌, arith}
use sms_gateway_v.Exec.{Exec, Exception, item_not_found, ◌>>=◌}
use sms_gateway_v.Exec.Raises.{
  is_python, Fuelled, fuelled_rules, Fuelled-bind, Fuelled-catch, Fuelled-gets, Fuelled-raise,
  Fuelled-if,
}
use sms_gateway_v.Queue.Models.{ItemStatus, QueueItem, Codec, Hashing}
use sms_gateway_v.Queue.Dedup
use sms_gateway_v.Queue.Dedup.{DedupStore}
use sms_gateway_v.Queue.State.{SubDir, Queue, atomic_move, dirs_or_raise, on_dedup}
use sms_gateway_v.Queue.Claim.{
  on_missing, quarantine, quarantine_mismatch, mark_processing, claim, claim_round, claim_from,
  claim_next,
}

Fuelled-update_status :
    (now : ℕ) (h : String) (st : ItemStatus) → Fuelled (Dedup.update_status now h st)
unfolding Dedup.update_status Dedup.connection_or_raise ◌>>=◌
Fuelled-update_status now h st = record { at = λ d. ground arith }

Fuelled-record_new : (now : ℕ) (h i : String) → Fuelled (Dedup.record_new now h i)
unfolding Dedup.record_new Dedup.connection_or_raise ◌>>=◌
Fuelled-record_new now h i = record { at = λ d. ground arith }

Fuelled-delete_by_item_id : (i : String) → Fuelled (Dedup.delete_by_item_id i)
unfolding Dedup.delete_by_item_id Dedup.connection_or_raise ◌>>=◌
Fuelled-delete_by_item_id i = record { at = λ d. ground arith }

module _ {Text : Type 0} where
  pub Fuelled-on_dedup :
      {A : Type 0} (m : Exec DedupStore A) → Fuelled m → Fuelled (on_dedup {Text = Text} m)
  unfolding on_dedup
  Fuelled-on_dedup m k = record { at = λ q. k.at q.dedup }

  pub Fuelled-dirs_or_raise : Fuelled (dirs_or_raise {Text = Text})
  unfolding dirs_or_raise ◌>>=◌
  Fuelled-dirs_or_raise = record { at = λ q. ground arith }

  pub Fuelled-atomic_move :
      (stem : String) (src dst : SubDir) → Fuelled (atomic_move {Text = Text} stem src dst)
  unfolding atomic_move ◌>>=◌
  Fuelled-atomic_move stem src dst = record { at = λ q. ground arith }

ruleset claim_rules = (
  fuelled_rules, Fuelled-update_status, Fuelled-record_new, Fuelled-delete_by_item_id,
  Fuelled-on_dedup, Fuelled-dirs_or_raise, Fuelled-atomic_move,
)

module _ {Text : Type 0} where
  quarantine-Fuelled : (stem : String) → Fuelled (quarantine {Text = Text} stem)
  unfolding quarantine
  quarantine-Fuelled stem = search claim_rules

  quarantine_mismatch-Fuelled :
      (stem : String) (item : QueueItem) → Fuelled (quarantine_mismatch {Text = Text} stem item)
  unfolding quarantine_mismatch
  quarantine_mismatch-Fuelled stem item = search claim_rules depth 12

  on_missing-Fuelled :
      {A : Type 0} (h : Exec (Queue Text) A) (e : Exception)
      → Fuelled h
      → is_python e ≡ true
      → Fuelled (on_missing h e)
  unfolding on_missing
  on_missing-Fuelled h item_not_found k p = k
  on_missing-Fuelled h e k p = Fuelled-raise e p

module _ {Text : Type 0} ⦃codec : Codec Text⦄ ⦃hashing : Hashing⦄ where
  mark_processing-Fuelled :
      (now : ℕ) (h : String) (item : QueueItem) → Fuelled (mark_processing {Text = Text} now h item)
  unfolding mark_processing
  mark_processing-Fuelled now h item =
      Fuelled-catch _ _ (search claim_rules) λ e p. on_missing-Fuelled _ e (search claim_rules) p

  claim-Fuelled :
      (now : ℕ) (stem : String) (item : QueueItem) → Fuelled (claim {Text = Text} now stem item)
  unfolding claim
  claim-Fuelled now stem item = search (claim_rules, mark_processing-Fuelled)

  claim_round-Fuelled :
      (now : ℕ) (stem : String) (next : Exec (Queue Text) (Option QueueItem))
      (loaded : Option QueueItem)
      → Fuelled next
      → Fuelled (claim_round now stem next loaded)
  unfolding claim_round
  claim_round-Fuelled now stem next none k = Fuelled-bind _ _ (quarantine-Fuelled stem) λ t. k
  claim_round-Fuelled now stem next (some item) k =
      Fuelled-if _ _ _ (claim-Fuelled now stem item)
        (Fuelled-bind _ _ (quarantine_mismatch-Fuelled stem item) λ t. k)

  claim_from-Fuelled :
      (now : ℕ) (skipped stems : List String) → Fuelled (claim_from {Text = Text} now skipped stems)
  unfolding claim_from
  claim_from-Fuelled now skipped [] = search claim_rules
  claim_from-Fuelled now skipped (stem ∷ rest) =
      let next = claim_from-Fuelled now skipped rest in
      Fuelled-if _ _ _ next
        (Fuelled-bind _ _ (Fuelled-gets _) λ loaded. claim_round-Fuelled now stem _ loaded next)

  pub claim_next-Fuelled :
      (now : ℕ) (skipped : List String) → Fuelled (claim_next {Text = Text} now skipped)
  unfolding claim_next
  claim_next-Fuelled now skipped = search (claim_rules, claim_from-Fuelled)
