-- ===== src/Queue/Claim/Conserves.antt =====
-- `claim_next` moves files, whatever it finds in them, and loses or doubles none.
use sms_gateway_v.Base.{ℕ, String, Option, none, some, List, [], ◌∷◌, contains}
use sms_gateway_v.Exec.{Exec, Exception, item_not_found}
use sms_gateway_v.Exec.Keeps.{Keeps, Keeps-if, Keeps-bind, Keeps-gets}
use sms_gateway_v.Queue.Models.{QueueItem, Codec, Hashing}
use sms_gateway_v.Queue.State.{Queue}
use sms_gateway_v.Queue.Accounted.{IsAccounted, account_rules}
use sms_gateway_v.Queue.Claim.{
  on_missing, quarantine, quarantine_mismatch, mark_processing, claim, claim_round, claim_from,
  claim_next,
}

module _ {Text : Type 0} (n : String → ℕ) where
  Keeps-on_missing :
      {A : Type 0} (h : Exec (Queue Text) A)
      → Keeps (IsAccounted n) h
      → (e : Exception) → Keeps (IsAccounted n) (on_missing h e)
  unfolding on_missing
  Keeps-on_missing h k item_not_found = k
  Keeps-on_missing h k _ = search account_rules

  quarantine-IsAccounted : (stem : String) → Keeps (IsAccounted n) (quarantine {Text = Text} stem)
  unfolding quarantine
  quarantine-IsAccounted stem = search account_rules

  quarantine_mismatch-IsAccounted :
      (stem : String) (item : QueueItem)
      → Keeps (IsAccounted n) (quarantine_mismatch {Text = Text} stem item)
  unfolding quarantine_mismatch
  quarantine_mismatch-IsAccounted stem item = search account_rules depth 9

module _ {Text : Type 0} ⦃codec : Codec Text⦄ ⦃hashing : Hashing⦄ (n : String → ℕ) where
  mark_processing-IsAccounted :
      (now : ℕ) (h : String) (item : QueueItem)
      → Keeps (IsAccounted n) (mark_processing {Text = Text} now h item)
  unfolding mark_processing
  mark_processing-IsAccounted now h item = search (account_rules, Keeps-on_missing)

  claim-IsAccounted :
      (now : ℕ) (stem : String) (item : QueueItem)
      → Keeps (IsAccounted n) (claim {Text = Text} now stem item)
  unfolding claim
  claim-IsAccounted now stem item = search (account_rules, mark_processing-IsAccounted)

  claim_round-IsAccounted :
      (now : ℕ) (stem : String) (next : Exec (Queue Text) (Option QueueItem))
      (loaded : Option QueueItem)
      → Keeps (IsAccounted n) next
      → Keeps (IsAccounted n) (claim_round now stem next loaded)
  unfolding claim_round
  claim_round-IsAccounted now stem next none k = search (account_rules, quarantine-IsAccounted)
  claim_round-IsAccounted now stem next (some item) k =
      search (account_rules, claim-IsAccounted, quarantine_mismatch-IsAccounted)

  claim_from-IsAccounted :
      (now : ℕ) (skipped paths : List String)
      → Keeps (IsAccounted n) (claim_from {Text = Text} now skipped paths)
  unfolding claim_from
  claim_from-IsAccounted now skipped [] = search account_rules
  claim_from-IsAccounted now skipped (stem ∷ rest) =
      let next = claim_from-IsAccounted now skipped rest in
      Keeps-if (contains skipped stem) _ _ next
        (Keeps-bind _ _ (Keeps-gets _) (λ loaded. claim_round-IsAccounted now stem _ loaded next))

  pub claim_next-IsAccounted :
      (now : ℕ) (skipped : List String)
      → Keeps (IsAccounted n) (claim_next {Text = Text} now skipped)
  unfolding claim_next
  claim_next-IsAccounted now skipped = search (account_rules, claim_from-IsAccounted)
