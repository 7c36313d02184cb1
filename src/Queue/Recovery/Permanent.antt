-- ===== src/Queue/Recovery/Permanent.antt =====
-- queue/queue.py: `requeue_failed` and the messages that are failed for good.
use sms_gateway_v.Base.{
  ℕ, ◌+◌, ◌*◌, leb, String, ◌≡◌, refl, true, false, Option, none, some, List, [], ◌∷◌, arith, ◌==◌,
  eq_iff, Bool-cases, inl, inr, ap, ◌∙◌, sym,
}
use sms_gateway_v.Exec.{Result, ok, raised, continue, ◌>>=◌}
use sms_gateway_v.Queue.Models.{QueueItem, Codec, Hashing}
use sms_gateway_v.Queue.Directory.{file-unlink, list_items_sorted}
use sms_gateway_v.Queue.Dedup.{cutoff, day, min_instant}
use sms_gateway_v.Queue.State.{SubDir, Queue, load_item, atomic_move, dirs_or_raise, on_dedup}
use sms_gateway_v.Queue.Recovery.{requeue, requeue_one, requeue_from, requeue_failed}

module _ {Text : Type 0} ⦃codec : Codec Text⦄ ⦃hashing : Hashing⦄ (k : String) (item : QueueItem)
    (permanent : item.permanently_failed ≡ true) where
  abbrev IsFailed : Queue Text → Type 0
  IsFailed q = load_item SubDir.failed k q ≡ some item

  move-IsFailed :
      (stem : String) (q : Queue Text)
      → (stem == k) ≡ false
      → IsFailed q
      → IsFailed (atomic_move stem SubDir.failed SubDir.pending q).1
  unfolding atomic_move load_item ◌>>=◌
  move-IsFailed stem q n l = ground (arith, file-unlink stem k q.dirs.failed)

  requeue-IsFailed :
      (now : ℕ) (stem : String) (x : QueueItem) (q : Queue Text)
      → (stem == k) ≡ false
      → IsFailed q
      → IsFailed (requeue now stem x q).1
  unfolding requeue atomic_move load_item on_dedup ◌>>=◌
  requeue-IsFailed now stem x q n l = ground (arith, file-unlink stem k q.dirs.failed)

  requeue_one-IsFailed :
      (now since : ℕ) (stem : String) (loaded : Option QueueItem) (q : Queue Text)
      → load_item SubDir.failed stem q ≡ loaded
      → IsFailed q
      → IsFailed (requeue_one now since stem loaded q).1
  unfolding requeue_one ◌>>=◌
  requeue_one-IsFailed now since stem none q e l = l
  requeue_one-IsFailed now since stem (some x) q e l = elim (Bool-cases (stem == k)) [
    | inl b ↦
        let p = ap (λ x. load_item SubDir.failed x q) ((eq_iff stem k).0 b) in
        ground (arith, sym e ∙ p ∙ l, permanent)
    | inr b ↦ ground (arith, requeue-IsFailed now stem x q b l)
  ]

  requeue_from-IsFailed :
      (now since : ℕ) (paths : List String) (count : ℕ) (q : Queue Text)
      → IsFailed q
      → IsFailed (requeue_from now since paths count q).1
  unfolding requeue_from ◌>>=◌
  requeue_from-IsFailed now since [] count q l = l
  requeue_from-IsFailed now since (stem ∷ rest) count q l =
      go (requeue_one now since stem (load_item SubDir.failed stem q) q).0
        (requeue_one now since stem (load_item SubDir.failed stem q) q).1
        (λ n t h. requeue_from-IsFailed now since rest (count + n) t h)
        (requeue_one-IsFailed now since stem (load_item SubDir.failed stem q) q refl l)
    where
      go :
          (r : Result ℕ) (t : Queue Text)
          → ((n : ℕ) (u : Queue Text)
              → IsFailed u
              → IsFailed (requeue_from now since rest (count + n) u).1)
          → IsFailed t
          → IsFailed (continue r (λ n. requeue_from now since rest (count + n)) t).1
      go (ok n) t next h = next n t h
      go (raised x) t next h = h

  -- If a file in failed reads as an item that is failed for good, then after a requeue of failed
  -- messages it still is in failed and reads the same, also when the requeue raises.
  pub requeue_failed-permanent :
      (now days : ℕ) (q : Queue Text)
      → load_item SubDir.failed k q ≡ some item
      → load_item SubDir.failed k (requeue_failed now days q).1 ≡ some item
  unfolding requeue_failed dirs_or_raise ◌>>=◌
  requeue_failed-permanent now days q l = elim (Bool-cases (leb (days * day) (now + min_instant))) [
    | inl w ↦ elim (Bool-cases q.initialized) [
      | inl b ↦
          simp (w, b)
            (requeue_from-IsFailed now (cutoff now days) (list_items_sorted q.dirs.failed) 0 q l)
      | inr b ↦ simp (w, b) l
    ]
    | inr w ↦ simp w l
  ]
