-- ===== src/Relay/Messages/Kept.antt =====
-- relay/relay.py: when a message is deleted from the modem.
use sms_gateway_v.Base.{
  ℕ, String, ◌≡◌, refl, ◌⊎◌, inl, inr, Bool, true, false, Option, none, some, ◌∷◌, sym, subst,
}
use sms_gateway_v.Exec.{
  Exception, delete_failed, modem, Result, ok, raised, modify, catch, continue, ◌>>=◌,
}
use sms_gateway_v.Queue.Models.{IncomingSms, QueueItem, Codec, Hashing}
use sms_gateway_v.Queue.State.{Queue}
use sms_gateway_v.Queue.Enqueue.{enqueue}
use sms_gateway_v.Queue.Enqueue.Once.{IsKnown, enqueue-IsKnown}
use sms_gateway_v.Queue.Enqueue.Stores.{new_hash}
use sms_gateway_v.Worker
use sms_gateway_v.Relay.State.{Relay, Modem, on_queue, on_worker, on_metrics, answer}
use sms_gateway_v.Relay.Messages.{
  record_sms_delete_failure, delete_message, on_delete_failed, count_enqueued, after_enqueue,
  process_sms,
}

module _ {Text : Type 0} where
  -- The deletion of a message, which may fail, and its queue.
  abbrev Deletes : String → Relay Text → Relay Text → Type 0
  Deletes path s t =
      ((t.deleted ≡ s.deleted) ⊎ (t.deleted ≡ path ∷ s.deleted)) × (t.worker.queue ≡ s.worker.queue)

  on_delete_failed-Deletes :
      (now : ℕ) (fail : Bool) (path : String) (e : Exception) (s : Relay Text)
      → Deletes path s (on_delete_failed now fail e s).1
  unfolding on_delete_failed record_sms_delete_failure on_metrics ◌>>=◌
  on_delete_failed-Deletes now true path (modem delete_failed text) s = (inl refl, refl)
  on_delete_failed-Deletes now false path (modem delete_failed text) s = (inl refl, refl)
  on_delete_failed-Deletes now fail path e s = (inl refl, refl)

  deletion-Deletes :
      (now : ℕ) (phone : Modem) (path : String) (fail : Bool) (s : Relay Text)
      → Deletes path s (catch (delete_message phone path) (on_delete_failed now fail) s).1
  unfolding delete_message answer ◌>>=◌
  deletion-Deletes now phone path fail s = go (phone.delete_message path)
    where
      go :
          (r : Result Unit)
          → Deletes path s
              (catch
                (answer r >>= λ _. modify (λ t. record t { deleted = path ∷ t.deleted }))
                (on_delete_failed now fail)
                s).1
      go (ok a) = (inr refl, refl)
      go (raised e) = on_delete_failed-Deletes now fail path e s

  after_enqueue-Deletes :
      (now : ℕ) (phone : Modem) (path : String) (fail : Bool) (item : Option QueueItem)
      (s : Relay Text)
      → Deletes path s (after_enqueue now phone path fail item s).1
  unfolding after_enqueue count_enqueued on_metrics on_worker Worker.wakeup ◌>>=◌
  after_enqueue-Deletes now phone path fail none s = deletion-Deletes now phone path fail _
  after_enqueue-Deletes now phone path fail (some item) s = deletion-Deletes now phone path fail _

module _ {Text : Type 0} ⦃codec : Codec Text⦄ ⦃hashing : Hashing⦄ where
  -- `_process_sms` deletes its message from the modem only when the queue knows it: however it ends,
  -- either nothing more is deleted, or just this message is, and then its hash has a row, or a
  -- pending item has it.
  pub process_sms-kept :
      (now : ℕ) (hex : String) (phone : Modem) (fail : Bool) (sms : IncomingSms) (s : Relay Text)
      → ((process_sms now hex phone fail sms s).1.deleted ≡ s.deleted)
        ⊎ (((process_sms now hex phone fail sms s).1.deleted ≡ sms.object_path ∷ s.deleted)
            × IsKnown
                (new_hash s.worker.queue now hex sms)
                (process_sms now hex phone fail sms s).1.worker.queue)
  unfolding process_sms on_queue ◌>>=◌
  process_sms-kept now hex phone fail sms s =
      go (enqueue now hex sms s.worker.queue).0 (enqueue now hex sms s.worker.queue).1 refl
    where
      go :
          (r : Result (Option QueueItem)) (q : Queue Text)
          → enqueue now hex sms s.worker.queue ≡ (r, q)
          → ((continue r
                (after_enqueue now phone sms.object_path fail)
                (record s { worker = record s.worker { queue = q } })).1.deleted
              ≡ s.deleted)
            ⊎ (((continue r
                    (after_enqueue now phone sms.object_path fail)
                    (record s { worker = record s.worker { queue = q } })).1.deleted
                  ≡ sms.object_path ∷ s.deleted)
                × IsKnown
                    (new_hash s.worker.queue now hex sms)
                    (continue r
                      (after_enqueue now phone sms.object_path fail)
                      (record s { worker = record s.worker { queue = q } })).1.worker.queue)
      go (raised e) q h = inl refl
      go (ok item) q h =
          let s' = record s { worker = record s.worker { queue = q } } in
          let (d, same) = after_enqueue-Deletes now phone sms.object_path fail item s' in
          let known = enqueue-IsKnown now hex sms s.worker.queue h in
          elim d [
            | inl e ↦ inl e
            | inr e ↦
                inr (e, subst (IsKnown (new_hash s.worker.queue now hex sms)) (sym same) known)
          ]
