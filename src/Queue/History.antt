-- ===== src/Queue/History.antt =====
-- Histories of the queue: the calls that the worker, the relay and the cleanup scheduler make on
-- messages that are already stored, in any order, failing or not.
use sms_gateway_v.Base.{ℕ, String, Bool, List, [], ◌∷◌}
use sms_gateway_v.Exec.{Exec, pure, catch, ◌>>=◌, ◌>>◌}
use sms_gateway_v.Exec.Keeps.{Keeps, Keeps-bind, Keeps-catch, Keeps-pure}
use sms_gateway_v.Queue.Models.{DateTime, QueueItem, Codec, Hashing}
use sms_gateway_v.Queue.State.{Queue}
use sms_gateway_v.Queue.Accounted.{IsAccounted, account_rules}
use sms_gateway_v.Queue.Claim.{claim_next}
use sms_gateway_v.Queue.Mark.{mark_sent, mark_failed, move_back_to_pending, update_attempt}
use sms_gateway_v.Queue.Recovery.{recover_processing, requeue_failed}
use sms_gateway_v.Queue.Claim.Conserves.{claim_next-IsAccounted}
use sms_gateway_v.Queue.Mark.Conserves.{
  mark_sent-IsAccounted, mark_failed-IsAccounted, move_back_to_pending-IsAccounted,
  update_attempt-IsAccounted,
}
use sms_gateway_v.Queue.Recovery.Conserves.{
  recover_processing-IsAccounted, requeue_failed-IsAccounted,
}

pub data Call : Type 0 where
  claims : List String → Call
  marks_sent : QueueItem → Call
  marks_failed : QueueItem → Bool → Call
  moves_back : QueueItem → Call
  updates : QueueItem → DateTime → Call
  recovers : Call
  requeues : ℕ → Call

module _ {Text : Type 0} ⦃codec : Codec Text⦄ ⦃hashing : Hashing⦄ where
  -- A call at a time; its result goes to the caller.
  pub call : ℕ → Call → Exec (Queue Text) Unit
  call now (claims skipped) = do item ← claim_next now skipped; pure tt
  call now (marks_sent item) = mark_sent now item
  call now (marks_failed item permanently) = mark_failed now item permanently
  call now (moves_back item) = move_back_to_pending item
  call now (updates item at) = do item' ← update_attempt now item at; pure tt
  call now recovers = do count ← recover_processing; pure tt
  call now (requeues days) = do count ← requeue_failed now days; pure tt

  -- An exception ends only its own call.
  pub run : List (ℕ × Call) → Exec (Queue Text) Unit
  run [] = pure tt
  run ((now, c) ∷ cs) = do catch (call now c) (λ _. pure tt); run cs

  module _ (n : String → ℕ) where
    call-IsAccounted : (now : ℕ) (c : Call) → Keeps (IsAccounted n) (call now c)
    unfolding call
    call-IsAccounted now (claims skipped) = search (account_rules, claim_next-IsAccounted)
    call-IsAccounted now (marks_sent item) = mark_sent-IsAccounted n now item
    call-IsAccounted now (marks_failed item b) = mark_failed-IsAccounted n now item b
    call-IsAccounted now (moves_back item) = move_back_to_pending-IsAccounted n item
    call-IsAccounted now (updates item at) = search (account_rules, update_attempt-IsAccounted)
    call-IsAccounted now recovers = search (account_rules, recover_processing-IsAccounted)
    call-IsAccounted now (requeues days) = search (account_rules, requeue_failed-IsAccounted)

    -- If no status directory names a file twice, and each stem has a file in n of the four status
    -- directories, where n is 0 or 1, then the same holds, with the same n, after any list of
    -- calls, each at its time, whatever the files hold and whichever calls raise: no message file
    -- is lost or doubled.
    pub run-IsAccounted : (cs : List (ℕ × Call)) → Keeps (IsAccounted n) (run cs)
    unfolding run
    run-IsAccounted [] = Keeps-pure tt
    run-IsAccounted ((now, c) ∷ cs) =
        Keeps-bind _ _ (Keeps-catch _ _ (call-IsAccounted now c) (λ _. Keeps-pure tt))
          λ _. run-IsAccounted cs
