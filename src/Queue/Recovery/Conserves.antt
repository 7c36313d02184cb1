-- ===== src/Queue/Recovery/Conserves.antt =====
-- `recover_processing` and `requeue_failed` move files, and lose or double none.
use sms_gateway_v.Base.{ℕ, suc, ◌+◌, String, Option, none, some, List, [], ◌∷◌}
use sms_gateway_v.Exec.Keeps.{Keeps, Keeps-bind, Keeps-gets}
use sms_gateway_v.Queue.Models.{QueueItem, Codec, Hashing}
use sms_gateway_v.Queue.Accounted.{IsAccounted, account_rules, Keeps-move}
use sms_gateway_v.Queue.Recovery.{
  recover_from, recover_processing, requeue, requeue_one, requeue_from, requeue_failed,
}

module _ {Text : Type 0} (n : String → ℕ) where
  recover_from-IsAccounted :
      (paths : List String) (count : ℕ)
      → Keeps (IsAccounted n) (recover_from {Text = Text} paths count)
  unfolding recover_from
  recover_from-IsAccounted [] count = search account_rules
  recover_from-IsAccounted (stem ∷ rest) count =
      Keeps-bind _ _ (Keeps-move n stem _ _ tt tt) λ _. recover_from-IsAccounted rest (suc count)

  pub recover_processing-IsAccounted : Keeps (IsAccounted n) (recover_processing {Text = Text})
  unfolding recover_processing
  recover_processing-IsAccounted = search (account_rules, recover_from-IsAccounted)

module _ {Text : Type 0} ⦃codec : Codec Text⦄ ⦃hashing : Hashing⦄ (n : String → ℕ) where
  requeue-IsAccounted :
      (now : ℕ) (stem : String) (item : QueueItem)
      → Keeps (IsAccounted n) (requeue {Text = Text} now stem item)
  unfolding requeue
  requeue-IsAccounted now stem item = search account_rules

  requeue_one-IsAccounted :
      (now since : ℕ) (stem : String) (loaded : Option QueueItem)
      → Keeps (IsAccounted n) (requeue_one {Text = Text} now since stem loaded)
  unfolding requeue_one
  requeue_one-IsAccounted now since stem none = search account_rules
  requeue_one-IsAccounted now since stem (some item) =
      search (account_rules, requeue-IsAccounted) depth 9

  requeue_from-IsAccounted :
      (now since : ℕ) (paths : List String) (count : ℕ)
      → Keeps (IsAccounted n) (requeue_from {Text = Text} now since paths count)
  unfolding requeue_from
  requeue_from-IsAccounted now since [] count = search account_rules
  requeue_from-IsAccounted now since (stem ∷ rest) count = Keeps-bind _ _ (Keeps-gets _) λ loaded.
      Keeps-bind _ _ (requeue_one-IsAccounted now since stem loaded)
        λ m. requeue_from-IsAccounted now since rest (count + m)

  pub requeue_failed-IsAccounted :
      (now max_age_days : ℕ) → Keeps (IsAccounted n) (requeue_failed {Text = Text} now max_age_days)
  unfolding requeue_failed
  requeue_failed-IsAccounted now max_age_days = search (account_rules, requeue_from-IsAccounted)
