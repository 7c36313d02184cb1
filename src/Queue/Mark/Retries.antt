-- ===== src/Queue/Mark/Retries.antt =====
-- queue/queue.py: an item that is put back for another attempt.
use sms_gateway_v.Base.{
  ℕ, ◌≤◌, ◌+◌, List, contains, Option-cases, inl, inr, String, ◌≡◌, true, none, some, is_some,
  arith, eq_refl, ap, ◌∙◌, subst,
}
use sms_gateway_v.Exec.{ok, ◌>>=◌}
use sms_gateway_v.Exec.Raises.{Fuelled}
use sms_gateway_v.Queue.Directory.Left.{left, left-put}
use sms_gateway_v.Queue.Models.{validate_content_hash, DateTime, QueueItem, Codec, utc}
use sms_gateway_v.Queue.Directory.{file, unlink, put, file-put, directory_laws}
use sms_gateway_v.Queue.State.{
  SubDir, Queue, atomic_move, load_item, save_item, dirs_or_raise, written,
}
use sms_gateway_v.Queue.Mark.{
  move_back_to_pending, update_attempt, attempted, require_processing, as_item_not_found,
}

module _ {Text : Type 0} where
  pub move_back_to_pending-Fuelled :
      (item : QueueItem) → Fuelled (move_back_to_pending {Text = Text} item)
  unfolding move_back_to_pending atomic_move as_item_not_found dirs_or_raise ◌>>=◌
  move_back_to_pending-Fuelled item = record { at = λ q. ground arith }

  -- A skipped item that is put back is not to be claimed.
  pub move_back_to_pending-left :
      (skipped : List String) (item : QueueItem) (q q' : Queue Text)
      → contains skipped item.id ≡ true
      → move_back_to_pending item q ≡ (ok tt, q')
      → left skipped q'.dirs.pending ≤ left skipped q.dirs.pending
  unfolding move_back_to_pending atomic_move as_item_not_found dirs_or_raise ◌>>=◌
  move_back_to_pending-left skipped item q q' c e =
      elim (Option-cases (file item.id q.dirs.processing)) [
        | inl n ↦ absurd (missing n)
        | inr (f, p) ↦ ground (arith, left-put skipped item.id f q.dirs.pending c)
      ]
    where
      missing : file item.id q.dirs.processing ≡ none → ⊥
      missing n = ground arith

module _ {Text : Type 0} ⦃codec : Codec Text⦄ where
  update_attempt-updated :
      (now : ℕ) (item updated : QueueItem) (at : DateTime) (q q' : Queue Text)
      → update_attempt now item at q ≡ (ok updated, q')
      → (updated ≡ attempted now item at)
        × (q'.dirs.processing ≡ put item.id (written now (attempted now item at)) q.dirs.processing)
  unfolding update_attempt save_item require_processing dirs_or_raise ◌>>=◌
  update_attempt-updated now item updated at q q' e = ground arith

  pub move_back_to_pending-moved :
      (item : QueueItem) (q q' : Queue Text)
      → move_back_to_pending item q ≡ (ok tt, q')
      → (is_some (file item.id q.dirs.processing) ≡ true)
        × (file item.id q'.dirs.pending ≡ file item.id q.dirs.processing)
        × (q'.dirs.processing ≡ unlink item.id q.dirs.processing)
  unfolding move_back_to_pending atomic_move as_item_not_found dirs_or_raise file put ◌>>=◌
  move_back_to_pending-moved item q q' e = ground (arith, eq_refl item.id)

  -- An item that is updated and then moved back, where neither raises and the validator lets its
  -- hash in, is in pending and no longer in processing; its file loads as the item with one more
  -- attempt, the present as the time of its last attempt and the given time as that of the next.
  pub update_attempt-moved :
      (now : ℕ) (item updated : QueueItem) (at : DateTime) (q q₁ q' : Queue Text)
      → validate_content_hash item.content_hash ≡ true
      → update_attempt now item at q ≡ (ok updated, q₁)
      → move_back_to_pending updated q₁ ≡ (ok tt, q')
      → (load_item SubDir.pending item.id q'
          ≡ some (record item {
            attempts = item.attempts + 1;
            last_attempt_at = some (utc now);
            next_retry_at = some at;
          }))
        × (file item.id q'.dirs.processing ≡ none)
  unfolding load_item
  update_attempt-moved now item updated at q q₁ q' v e d =
      let (u, p) = update_attempt-updated now item updated at q q₁ e in
      let (s, f, l) =
        move_back_to_pending-moved (attempted now item at) q₁ q'
          (subst (λ x. move_back_to_pending x q₁ ≡ (ok tt, q')) u d) in
      let got : file item.id q'.dirs.pending ≡ some (written now (attempted now item at)) =
        f
        ∙ ap (file item.id) p
        ∙ file-put item.id item.id _ q.dirs.processing
        ∙ simp (eq_refl item.id) in
      (rw got (codec.round_trip (attempted now item at) v), rw l (simp directory_laws))
