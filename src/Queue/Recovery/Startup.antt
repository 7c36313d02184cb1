-- ===== src/Queue/Recovery/Startup.antt =====
-- queue/queue.py: what the reconciliation of the three directories makes of the dedup store.
use sms_gateway_v.Base.{◌⊎◌, ℕ, String, ◌≡◌, refl, true, some, ◌∙◌, inl, inr}
use sms_gateway_v.Exec.{pure, continue, Exec, Result, raised, ok, ◌>>=◌}
use sms_gateway_v.Queue.Models.{ItemStatus, Codec, Hashing}
use sms_gateway_v.Queue.State.{SubDir, Queue}
use sms_gateway_v.Queue.Recovery.{reconcile_status_dir, reconcile_startup_statuses}
use sms_gateway_v.Queue.Recovery.Known.{
  is_ok, is_known, hash_in, Reconciled, afterwards, hash_in-Reconciled,
  reconcile_status_dir-Reconciled,
}

module _ {Text : Type 0} ⦃codec : Codec Text⦄ ⦃hashing : Hashing⦄ where
  pub then_ok :
      {A B : Type 0} (m : Exec (Queue Text) A) (k : Exec (Queue Text) B) (q : Queue Text)
      → is_ok (m q).0 ≡ true
      → (m >>= λ a. k) q ≡ k (m q).1
  unfolding ◌>>=◌
  then_ok {A} {B} m k q e = go (m q).0 e
    where
      go : (r : Result A) → is_ok r ≡ true → continue r (λ a. k) (m q).1 ≡ k (m q).1
      go (ok a) i = refl
      go (raised x) i = cc

  ended : (q : Queue Text) → pure tt q ≡ (ok tt, q)
  unfolding ◌>>=◌
  ended q = refl

  statuses-three :
      (now : ℕ) (q : Queue Text)
      → is_ok (reconcile_status_dir now SubDir.pending ItemStatus.pending q).0 ≡ true
      → is_ok
          (reconcile_status_dir now SubDir.sent ItemStatus.sent
            (reconcile_status_dir now SubDir.pending ItemStatus.pending q).1).0
        ≡ true
      → is_ok
          (reconcile_status_dir now SubDir.failed ItemStatus.failed
            (reconcile_status_dir now SubDir.sent ItemStatus.sent
              (reconcile_status_dir now SubDir.pending ItemStatus.pending q).1).1).0
        ≡ true
      → reconcile_startup_statuses now q ≡ (
        ok tt,
        (reconcile_status_dir now SubDir.failed ItemStatus.failed
            (reconcile_status_dir now SubDir.sent ItemStatus.sent
              (reconcile_status_dir now SubDir.pending ItemStatus.pending q).1).1).1,
      )
  unfolding reconcile_startup_statuses
  statuses-three now q a b c =
      then_ok (reconcile_status_dir now SubDir.pending ItemStatus.pending) _ q a
      ∙ then_ok (reconcile_status_dir now SubDir.sent ItemStatus.sent) _ _ b
      ∙ then_ok (reconcile_status_dir now SubDir.failed ItemStatus.failed) _ _ c
      ∙ ended _

  -- What the reconciliation of the three directories comes to.
  pub reconcile_startup_statuses-Reconciled :
      (now : ℕ) (q : Queue Text)
      → q.dedup.connected ≡ true
      → ((reconcile_startup_statuses now q).0 ≡ ok tt)
        × Reconciled q (reconcile_startup_statuses now q).1
        × ((k h : String)
            → (hash_in SubDir.pending k q ≡ some h)
              ⊎ ((hash_in SubDir.sent k q ≡ some h) ⊎ (hash_in SubDir.failed k q ≡ some h))
            → is_known h (reconcile_startup_statuses now q).1 ≡ true)
  reconcile_startup_statuses-Reconciled now q c =
      let p = reconcile_status_dir-Reconciled now SubDir.pending ItemStatus.pending q c in
      let q1 = (reconcile_status_dir now SubDir.pending ItemStatus.pending q).1 in
      let t = reconcile_status_dir-Reconciled now SubDir.sent ItemStatus.sent q1 p.1.connected in
      let q2 = (reconcile_status_dir now SubDir.sent ItemStatus.sent q1).1 in
      let f =
        reconcile_status_dir-Reconciled now SubDir.failed ItemStatus.failed q2 t.1.connected in
      let q3 = (reconcile_status_dir now SubDir.failed ItemStatus.failed q2).1 in
      let pt = afterwards q q1 q2 p.1 t.1 in
      rw (statuses-three now q p.0 t.0 f.0) (
        refl,
        afterwards q q2 q3 pt f.1,
        (λ k h e. elim e [
          | inl e ↦ f.1.keeps h (t.1.keeps h (p.2 k h e))
          | inr (inl e) ↦ f.1.keeps h (t.2 k h (hash_in-Reconciled SubDir.sent k q q1 p.1 ∙ e))
          | inr (inr e) ↦ f.2 k h (hash_in-Reconciled SubDir.failed k q q2 pt ∙ e)
        ]),
      )
