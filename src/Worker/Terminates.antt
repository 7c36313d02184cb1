-- ===== src/Worker/Terminates.antt =====
-- worker/worker.py: the loop that looks for an item that is due ends.
use sms_gateway_v.Base.{
  ℕ, zero, suc, ◌<◌, String, ◌≡◌, refl, Bool, true, false, Option, none, some, List, [], ◌∷◌,
  length, if◌then◌else◌, arith, eq_refl, subst,
}
use sms_gateway_v.Exec.{Exec, Result, ok, raised, pure, continue, ◌>>=◌}
use sms_gateway_v.Exec.Raises.{is_fuelled, Fuelled-pure}
use sms_gateway_v.Queue.Models.{QueueItem, Codec, Hashing}
use sms_gateway_v.Queue.Directory.Left.{left, left-length}
use sms_gateway_v.Queue.State.{Queue}
use sms_gateway_v.Queue.Claim.{claim_next}
use sms_gateway_v.Queue.Claim.Claimed.{claim_next-IsClaimed}
use sms_gateway_v.Queue.Claim.Fuelled.{claim_next-Fuelled}
use sms_gateway_v.Queue.Mark.{move_back_to_pending}
use sms_gateway_v.Queue.Mark.Retries.{move_back_to_pending-left, move_back_to_pending-Fuelled}
use sms_gateway_v.Worker.{Worker, on_queue, take_or_skip, next_due, is_due}

module _ {Text : Type 0} ⦃codec : Codec Text⦄ ⦃hashing : Hashing⦄ where
  abbrev to_claim : List String → Worker Text → ℕ
  to_claim skipped w = left skipped w.queue.dirs.pending

  -- what a round may assume of the rounds that follow it
  abbrev Enough : ℕ → (List String → Exec (Worker Text) (Option QueueItem)) → Type 0
  Enough fuel rest =
      (skipped : List String) (w : Worker Text)
      → to_claim skipped w < fuel
      → is_fuelled (rest skipped w).0 ≡ true

  move_back-fuelled :
      (fuel : ℕ) (skipped : List String) (item : QueueItem)
      (rest : List String → Exec (Worker Text) (Option QueueItem)) (w : Worker Text)
      → Enough fuel rest
      → to_claim (item.id ∷ skipped) w < fuel
      → is_fuelled ((on_queue (move_back_to_pending item) >>= λ _. rest (item.id ∷ skipped)) w).0
        ≡ true
  unfolding on_queue ◌>>=◌
  move_back-fuelled fuel skipped item rest w enough few =
      go (move_back_to_pending item w.queue).0 (move_back_to_pending item w.queue).1 refl
    where
      go :
          (r : Result Unit) (q : Queue Text)
          → move_back_to_pending item w.queue ≡ (r, q)
          → is_fuelled (continue r (λ _. rest (item.id ∷ skipped)) (record w { queue = q })).0
            ≡ true
      go (ok t) q e =
          enough (item.id ∷ skipped) (record w { queue = q })
            (omega (
              arith,
              few,
              move_back_to_pending-left (item.id ∷ skipped) item w.queue q (simp (eq_refl item.id))
                  e,
            ))
      go (raised x) q e =
          subst (λ x. is_fuelled x.0 ≡ true) e ((move_back_to_pending-Fuelled item).at w.queue)

  take_or_skip-fuelled :
      (fuel now : ℕ) (skipped : List String) (item : QueueItem)
      (rest : List String → Exec (Worker Text) (Option QueueItem)) (w : Worker Text)
      → Enough fuel rest
      → to_claim (item.id ∷ skipped) w < fuel
      → is_fuelled (take_or_skip now skipped rest (some item) w).0 ≡ true
  unfolding take_or_skip
  take_or_skip-fuelled fuel now skipped item rest w enough few =
      taken (is_due now item.next_retry_at)
    where
      taken :
          (due : Bool)
          → is_fuelled
              ((if due
                  then pure (some item)
                  else (on_queue (move_back_to_pending item) >>= λ _. rest (item.id ∷ skipped)))
                w).0
            ≡ true
      taken true = (Fuelled-pure (some item)).at w
      taken false = move_back-fuelled fuel skipped item rest w enough few

  none-fuelled :
      (now : ℕ) (skipped : List String) (rest : List String → Exec (Worker Text) (Option QueueItem))
      (w : Worker Text)
      → is_fuelled (take_or_skip now skipped rest none w).0 ≡ true
  unfolding take_or_skip
  none-fuelled now skipped rest w = (Fuelled-pure none).at w

  -- With more rounds than there are files to claim, the loop does not run out of them.
  next_due-fuelled : (fuel now : ℕ) → Enough fuel (next_due fuel now)
  unfolding next_due ◌>>=◌
  next_due-fuelled zero now skipped w few = absurd (omega arith)
  next_due-fuelled (suc fuel) now skipped w few =
      claimed (next_due-fuelled fuel now) (claim_next now skipped w.queue).0
        (claim_next now skipped w.queue).1 refl
    where
      claimed :
          Enough fuel (next_due fuel now)
          → (r : Result (Option QueueItem)) (q : Queue Text)
          → claim_next now skipped w.queue ≡ (r, q)
          → is_fuelled
              (continue r (take_or_skip now skipped (next_due fuel now)) (record w { queue = q })).0
            ≡ true
      claimed enough (ok none) q e =
          none-fuelled now skipped (next_due fuel now) (record w { queue = q })
      claimed enough (ok (some item)) q e =
          take_or_skip-fuelled fuel now skipped item (next_due fuel now) (record w { queue = q })
            enough (omega (arith, few, (claim_next-IsClaimed now skipped item w.queue q e).fewer))
      claimed enough (raised x) q e =
          subst (λ y. is_fuelled y.0 ≡ true) e ((claim_next-Fuelled now skipped).at w.queue)

  -- The search of a pass for an item that is due ends: with one round for each pending file and one
  -- more it returns, or raises what the code raises, whatever the files hold, and never runs out of
  -- rounds.
  pub process_one_pending_item-fuelled :
      (now : ℕ) (w : Worker Text)
      → is_fuelled (next_due (suc (length w.queue.dirs.pending)) now [] w).0 ≡ true
  process_one_pending_item-fuelled now w =
      next_due-fuelled (suc (length w.queue.dirs.pending)) now [] w
        (omega (arith, left-length w.queue.dirs.pending))
