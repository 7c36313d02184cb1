-- ===== src/Queue/Enqueue/Once.antt =====
-- A message that `enqueue` has accepted is known: it is not accepted again.
use sms_gateway_v.Base.{ℕ, String, ◌≡◌, subst, ◌⊎◌, true, Option, none, arith, eq_refl, is_some}
use sms_gateway_v.Exec.{ok, ◌>>=◌}
use sms_gateway_v.Queue.Models.{IncomingSms, QueueItem, Codec, Hashing, new}
use sms_gateway_v.Queue.Dedup
use sms_gateway_v.Queue.Dedup.{row_of, connection_or_raise, record_new}
use sms_gateway_v.Queue.State.{Queue, atomic_write_json, dirs_or_raise, on_dedup}
use sms_gateway_v.Queue.Hash.{content_hash_for_item, with_content_hash}
use sms_gateway_v.Queue.Enqueue.Stores.{new_hash}
use sms_gateway_v.Queue.Hash.Buckets.{IsRepeat, hash_of_new, content_hash-repeat}
use sms_gateway_v.Queue.Enqueue.{
  find_pending_duplicate, delete_pending_item, store, enqueue_item, enqueue,
}

module _ {Text : Type 0} ⦃codec : Codec Text⦄ ⦃hashing : Hashing⦄ where
  -- The hash has a row, or a pending item has it.
  abbrev pub IsKnown : String → Queue Text → Type 0
  IsKnown h q =
      (is_some (row_of h q.dedup.rows) ≡ true) ⊎ (is_some (find_pending_duplicate h q) ≡ true)

  store-IsKnown :
      (now : ℕ) (h : String) (item : QueueItem) (q : Queue Text) {r : Option QueueItem}
      {q' : Queue Text}
      → store now h item q ≡ (ok r, q')
      → is_some (row_of h q'.dedup.rows) ≡ true
  unfolding store on_dedup record_new row_of ◌>>=◌ delete_pending_item
  store-IsKnown now h item q e = ground (arith, eq_refl h)

  enqueue_item-IsKnown :
      (now : ℕ) (h : String) (item : QueueItem) (q : Queue Text) {r : Option QueueItem}
      {q' : Queue Text}
      → enqueue_item now h item q ≡ (ok r, q')
      → IsKnown h q'
        × (q'.initialized ≡ true)
        × (q'.dedup.connected ≡ true)
        × (q'.dedup_window_minutes ≡ q.dedup_window_minutes)
  unfolding enqueue_item on_dedup dirs_or_raise Dedup.is_duplicate record_new row_of ◌>>=◌
      delete_pending_item atomic_write_json
  enqueue_item-IsKnown now h item q e = ground (arith, eq_refl h)

  -- Once `enqueue` has returned for a message, its hash is known.
  pub enqueue-IsKnown :
      (now : ℕ) (hex : String) (sms : IncomingSms) (q : Queue Text) {r : Option QueueItem}
      {q' : Queue Text}
      → enqueue now hex sms q ≡ (ok r, q')
      → IsKnown (new_hash q now hex sms) q'
  unfolding enqueue
  enqueue-IsKnown now hex sms q e = (enqueue_item-IsKnown now _ _ q e).0

  -- A known hash is refused, and nothing changes.
  known_refused :
      (now : ℕ) (h : String) (item : QueueItem) (q : Queue Text)
      → IsKnown h q
      → q.initialized ≡ true
      → q.dedup.connected ≡ true
      → ((enqueue_item now h item q).0 ≡ ok none) × ((enqueue_item now h item q).1.dirs ≡ q.dirs)
  unfolding enqueue_item on_dedup dirs_or_raise Dedup.is_duplicate record_new row_of ◌>>=◌
  known_refused now h item q k i c = ground arith

  pub enqueue_known :
      (now : ℕ) (hex : String) (sms : IncomingSms) (q : Queue Text)
      → IsKnown (new_hash q now hex sms) q
      → q.initialized ≡ true
      → q.dedup.connected ≡ true
      → ((enqueue now hex sms q).0 ≡ ok none) × ((enqueue now hex sms q).1.dirs ≡ q.dirs)
  unfolding enqueue
  enqueue_known now hex sms q k i c = known_refused now _ _ q k i c

  -- After `enqueue` has returned for a message, whether it stored it or knew it, a repeat of the
  -- message (the same number and text, stamped in the same zone and the same bucket of the dedup
  -- window) is refused on the queue that this call has left, whatever time has passed, and no
  -- file changes.
  pub enqueue_repeat :
      (now now' : ℕ) (hex hex' : String) (sms sms' : IncomingSms) (q q' : Queue Text)
      (r : Option QueueItem)
      → enqueue now hex sms q ≡ (ok r, q')
      → IsRepeat q.dedup_window_minutes sms sms'
      → ((enqueue now' hex' sms' q').0 ≡ ok none) × ((enqueue now' hex' sms' q').1.dirs ≡ q'.dirs)
  unfolding enqueue
  enqueue_repeat now now' hex hex' sms sms' q q' r e same =
      let known = enqueue_item-IsKnown now _ _ q e in
      known_refused now' _ _ q'
        (subst (λ h. IsKnown h q') (same_hash q'.dedup_window_minutes known.3) known.0) known.1
        known.2
    where
      minutes : ℕ
      minutes = q.dedup_window_minutes

      hash : ℕ → ℕ → String → IncomingSms → String
      hash w t hex sms = content_hash_for_item w (with_content_hash w (new t hex sms))

      same_hash : (w : ℕ) → w ≡ minutes → hash minutes now hex sms ≡ hash w now' hex' sms'
      same_hash w e = cc (
        e,
        hash_of_new w now' hex' sms',
        hash_of_new minutes now hex sms,
        content_hash-repeat minutes now now' sms sms' same,
      )
