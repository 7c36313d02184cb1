-- ===== src/Queue/Recovery/Opens.antt =====
-- queue/queue.py: what `initialize` makes of the files and rows that a run left behind.
use sms_gateway_v.Base.{ℕ, String, ◌≡◌, ◌⊎◌, refl, true, false, some, ap, ◌∙◌, Bool-cases, inl, inr}
use sms_gateway_v.Exec.{ok, modify, ◌>>=◌}
use sms_gateway_v.Queue.Models.{Codec, Hashing}
use sms_gateway_v.Queue.Dedup
use sms_gateway_v.Queue.Dedup.{DedupStore}
use sms_gateway_v.Queue.State.{load_item, SubDir, Queue, on_dedup}
use sms_gateway_v.Queue.Recovery.{reconcile_startup_statuses, initialize}
use sms_gateway_v.Queue.Recovery.Startup.{then_ok, reconcile_startup_statuses-Reconciled}
use sms_gateway_v.Queue.Recovery.Known.{is_ok, is_known, hash_in, Reconciled}

initialize-ok : (d : DedupStore) → (Dedup.initialize d).0 ≡ ok tt
unfolding Dedup.initialize ◌>>=◌
initialize-ok d = elim (Bool-cases d.connected) [ inl b ↦ simp b | inr b ↦ simp b ]

initialize-connected : (d : DedupStore) → (Dedup.initialize d).1.connected ≡ true
unfolding Dedup.initialize ◌>>=◌
initialize-connected d = elim (Bool-cases d.connected) [ inl b ↦ simp b | inr b ↦ simp b ]

initialize-rows : (d : DedupStore) → (Dedup.initialize d).1.rows ≡ d.rows
unfolding Dedup.initialize ◌>>=◌
initialize-rows d = elim (Bool-cases d.connected) [ inl b ↦ simp b | inr b ↦ simp b ]

module _ {Text : Type 0} ⦃codec : Codec Text⦄ ⦃hashing : Hashing⦄ where
  connect : Queue Text → Queue Text
  connect q = record q { dedup = (Dedup.initialize q.dedup).1 }

  set_initialized : Queue Text → Queue Text
  set_initialized q = record q { initialized = true }

  initialize-steps :
      (now : ℕ) (q : Queue Text)
      → q.initialized ≡ false
      → initialize now q
        ≡ (on_dedup Dedup.initialize >>= λ a.
              (reconcile_startup_statuses now >>= λ b. modify set_initialized))
            q
  unfolding initialize ◌>>=◌ set_initialized
  initialize-steps now q i = simp i

  set : (q : Queue Text) → modify set_initialized q ≡ (ok tt, set_initialized q)
  unfolding ◌>>=◌
  set q = refl

  on_connect : (q : Queue Text) → (on_dedup Dedup.initialize q).1 ≡ connect q
  unfolding on_dedup connect
  on_connect q = refl

  on_connect-ok : (q : Queue Text) → (on_dedup Dedup.initialize q).0 ≡ ok tt
  unfolding on_dedup
  on_connect-ok q = initialize-ok q.dedup

  connected-connect : (q : Queue Text) → (connect q).dedup.connected ≡ true
  unfolding connect
  connected-connect q = initialize-connected q.dedup

  reconciled :
      (now : ℕ) (q : Queue Text)
      → ((reconcile_startup_statuses now (connect q)).0 ≡ ok tt)
        × Reconciled (connect q) (reconcile_startup_statuses now (connect q)).1
        × ((k h : String)
            → (hash_in SubDir.pending k (connect q) ≡ some h)
              ⊎ ((hash_in SubDir.sent k (connect q) ≡ some h)
                  ⊎ (hash_in SubDir.failed k (connect q) ≡ some h))
            → is_known h (reconcile_startup_statuses now (connect q)).1 ≡ true)
  reconciled now q = reconcile_startup_statuses-Reconciled now (connect q) (connected-connect q)

  is_known-connect : (h : String) (q : Queue Text) → is_known h (connect q) ≡ is_known h q
  unfolding connect
  is_known-connect h q = rw (initialize-rows q.dedup) refl

  hash_in-connect :
      (s : SubDir) (k : String) (q : Queue Text) → hash_in s k (connect q) ≡ hash_in s k q
  unfolding connect load_item
  hash_in-connect s k q = refl

  dirs-connect : (q : Queue Text) → (connect q).dirs ≡ q.dirs
  unfolding connect
  dirs-connect q = refl

  initialize-reconciled :
      (now : ℕ) (q : Queue Text)
      → q.initialized ≡ false
      → initialize now q ≡ (ok tt, set_initialized (reconcile_startup_statuses now (connect q)).1)
  initialize-reconciled now q i =
      initialize-steps now q i
      ∙ then_ok (on_dedup Dedup.initialize) _ q (ap is_ok (on_connect-ok q))
      ∙ ap (λ t. (reconcile_startup_statuses now >>= λ b. modify set_initialized) t) (on_connect q)
      ∙ then_ok (reconcile_startup_statuses now) _ (connect q) (ap is_ok (reconciled now q).0)
      ∙ set _

  -- a hash of a row, or of a message that a readable file of pending, sent or failed holds
  abbrev pub Left : String → String → Queue Text → Type 0
  Left h k q =
      (is_known h q ≡ true)
      ⊎ ((hash_in SubDir.pending k q ≡ some h)
          ⊎ ((hash_in SubDir.sent k q ≡ some h) ⊎ (hash_in SubDir.failed k q ≡ some h)))

  known_after :
      (now : ℕ) (q : Queue Text) (k h : String)
      → Left h k q
      → is_known h (reconcile_startup_statuses now (connect q)).1 ≡ true
  known_after now q k h e =
      let r = reconciled now q in
      elim e [
        | inl e ↦ r.1.keeps h (is_known-connect h q ∙ e)
        | inr (inl e) ↦ r.2 k h (inl (hash_in-connect SubDir.pending k q ∙ e))
        | inr (inr (inl e)) ↦ r.2 k h (inr (inl (hash_in-connect SubDir.sent k q ∙ e)))
        | inr (inr (inr e)) ↦ r.2 k h (inr (inr (hash_in-connect SubDir.failed k q ∙ e)))
      ]

  -- Opening a closed queue succeeds and changes no file. Each content hash that was known before,
  -- and that of each message that a readable file of pending, sent or failed holds under its own
  -- id, is known to the dedup store afterwards, also where the store had lost its row.
  pub initialize-known :
      (now : ℕ) (q : Queue Text)
      → q.initialized ≡ false
      → ((initialize now q).0 ≡ ok tt)
        × ((initialize now q).1.initialized ≡ true)
        × ((initialize now q).1.dirs ≡ q.dirs)
        × ((k h : String) → Left h k q → is_known h (initialize now q).1 ≡ true)
  unfolding set_initialized
  initialize-known now q i =
      rw (initialize-reconciled now q i)
        (refl, refl, (reconciled now q).1.dirs ∙ dirs-connect q, λ k h e. known_after now q k h e)
