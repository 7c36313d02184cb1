-- ===== src/Queue/Claim/Claimed.antt =====
-- What `claim_next` returns.
use sms_gateway_v.Base.{
  ℕ, ◌<◌, String, ◌≡◌, refl, false, Option, none, some, List, [], ◌∷◌, arith, ◌==◌, eq_iff, eq_refl,
  contains, ap, ◌∙◌, sym, subst, Bool-cases, inl, inr, Option-cases,
}
use sms_gateway_v.Exec.{Exec, ok, ◌>>=◌}
use sms_gateway_v.Exec.Inversion.{bind-ok}
use sms_gateway_v.Queue.Models.{ItemStatus, QueueItem, Codec, Hashing}
use sms_gateway_v.Queue.Directory.{
  File, file, unlink, put, file-unlink, directory_laws, list_items_sorted,
}
use sms_gateway_v.Queue.Directory.Left.{left, left-file, left-unlink}
use sms_gateway_v.Queue.Dedup.{Row, new_row, row_of, with_status, update_status, record_new}
use sms_gateway_v.Queue.Dedup.Laws.{row_of-with_status}
use sms_gateway_v.Queue.State.{SubDir, Queue, load_item, atomic_move, dirs_or_raise, on_dedup}
use sms_gateway_v.Queue.Hash.{content_hash_for_item}
use sms_gateway_v.Queue.Claim.{
  quarantine, quarantine_mismatch, mark_processing, claim, claim_round, claim_from, claim_next,
}

abbrev pub status_of : Option Row → Option ItemStatus
status_of none = none
status_of (some r) = some r.status

module _ {Text : Type 0} ⦃codec : Codec Text⦄ ⦃hashing : Hashing⦄ where
  pub record IsClaimed (skipped : List String) (item : QueueItem) (q q' : Queue Text) : Type 0 where
    pub not_skipped : contains skipped item.id ≡ false
    pub was_pending : load_item SubDir.pending item.id q ≡ some item
    pub is_processing : load_item SubDir.processing item.id q' ≡ some item
    pub left_pending : file item.id q'.dirs.pending ≡ none
    pub status :
        status_of (row_of (content_hash_for_item q'.dedup_window_minutes item) q'.dedup.rows)
        ≡ some ItemStatus.processing
    -- Fewer of the pending files are still to be claimed.
    pub fewer : left (item.id ∷ skipped) q'.dirs.pending < left skipped q.dirs.pending

  mark_processing-status :
      (now : ℕ) (h : String) (item : QueueItem) (q q' : Queue Text) {r : Unit {0}}
      → mark_processing now h item q ≡ (ok r, q')
      → (status_of (row_of h q'.dedup.rows) ≡ some ItemStatus.processing)
        × (q'.dirs ≡ q.dirs)
        × (q'.dedup_window_minutes ≡ q.dedup_window_minutes)
  unfolding mark_processing on_dedup update_status record_new row_of ◌>>=◌
  mark_processing-status now h item q q' e = ground (
    arith,
    row_of-with_status now h h ItemStatus.processing q.dedup.rows,
    row_of-with_status now h h ItemStatus.processing (
        new_row now h item.id ItemStatus.pending
        ∷ with_status now h ItemStatus.processing q.dedup.rows),
    eq_refl h,
  )

  -- A claim that returns moves the file of the item.
  claim-returns :
      (now : ℕ) (item : QueueItem) (q q' : Queue Text) (r : Option QueueItem) (f : File Text)
      → file item.id q.dirs.pending ≡ some f
      → claim now item.id item q ≡ (ok r, q')
      → (r ≡ some item)
        × (status_of (row_of (content_hash_for_item q'.dedup_window_minutes item) q'.dedup.rows)
            ≡ some ItemStatus.processing)
        × (q'.dirs ≡ record q.dirs {
          pending = unlink item.id q.dirs.pending;
          processing = put item.id f q.dirs.processing;
        })
  unfolding claim atomic_move ◌>>=◌
  claim-returns now item q q' r f e c = ground (
    arith,
    mark_processing-status now (content_hash_for_item q.dedup_window_minutes item) item
        (record q {
          dirs = record q.dirs {
            pending = unlink item.id q.dirs.pending;
            processing = put item.id f q.dirs.processing;
          };
        })
        q',
  )

  claim-IsClaimed :
      (now : ℕ) (skipped : List String) (item : QueueItem) (q q' : Queue Text)
      (r : Option QueueItem)
      → contains skipped item.id ≡ false
      → load_item SubDir.pending item.id q ≡ some item
      → claim now item.id item q ≡ (ok r, q')
      → (r ≡ some item) × IsClaimed skipped item q q'
  unfolding load_item
  claim-IsClaimed now skipped item q q' r s l c =
      elim (Option-cases (file item.id q.dirs.pending)) [
        | inl e ↦ absurd (absurd_load e l)
        | inr (f, e) ↦
            let c' = claim-returns now item q q' r f e c in
            (
              c'.0,
              record {
                not_skipped = s;
                was_pending = l;
                is_processing = rw c'.2 (simp directory_laws (ground arith));
                left_pending = rw c'.2 (simp directory_laws);
                status = c'.1;
                fewer = rw c'.2 (left-file skipped item.id q.dirs.pending e s);
              },
            )
      ]
    where
      absurd_load :
          file item.id q.dirs.pending ≡ none → load_item SubDir.pending item.id q ≡ some item → ⊥
      absurd_load e l = ground arith

  -- A quarantine takes a file from the pending ones and changes no other of them.
  pending-earlier :
      (stem k : String) (item : QueueItem) (q q' : Queue Text)
      → q'.dirs.pending ≡ unlink stem q.dirs.pending
      → load_item SubDir.pending k q' ≡ some item
      → load_item SubDir.pending k q ≡ some item
  unfolding load_item
  pending-earlier stem k item q q' e l =
      ground (arith, ap (file k) e ∙ file-unlink stem k q.dirs.pending)

  quarantine-pending :
      (stem : String) (q q' : Queue Text) {r : Unit {0}}
      → quarantine stem q ≡ (ok r, q')
      → q'.dirs.pending ≡ unlink stem q.dirs.pending
  unfolding quarantine atomic_move on_dedup ◌>>=◌
  quarantine-pending stem q q' e = ground arith

  quarantine_mismatch-pending :
      (stem : String) (item : QueueItem) (q q' : Queue Text) {r : Unit {0}}
      → quarantine_mismatch stem item q ≡ (ok r, q')
      → q'.dirs.pending ≡ unlink stem q.dirs.pending
  unfolding quarantine_mismatch atomic_move on_dedup ◌>>=◌
  quarantine_mismatch-pending stem item q q' e = ground arith

  earlier-IsClaimed :
      (skipped : List String) (stem : String) (item : QueueItem) (q q₁ q' : Queue Text)
      → q₁.dirs.pending ≡ unlink stem q.dirs.pending
      → IsClaimed skipped item q₁ q'
      → IsClaimed skipped item q q'
  earlier-IsClaimed skipped stem item q q₁ q' e c = record {
    not_skipped = c.not_skipped;
    was_pending = pending-earlier stem item.id item q q₁ e c.was_pending;
    is_processing = c.is_processing;
    left_pending = c.left_pending;
    status = c.status;
    fewer = omega (arith, c.fewer, ap (left skipped) e, left-unlink skipped stem q.dirs.pending);
  }

  claim-of :
      (now : ℕ) (skipped : List String) (stem : String) (got item : QueueItem) (q q' : Queue Text)
      → got.id ≡ stem
      → contains skipped stem ≡ false
      → load_item SubDir.pending stem q ≡ some got
      → claim now stem got q ≡ (ok (some item), q')
      → IsClaimed skipped item q q'
  claim-of now skipped stem got item q q' p s l e =
      let s' : contains skipped got.id ≡ false =
        subst (λ x. contains skipped x ≡ false) (sym p) s in
      let l' : load_item SubDir.pending got.id q ≡ some got =
        subst (λ x. load_item SubDir.pending x q ≡ some got) (sym p) l in
      let e' : claim now got.id got q ≡ (ok (some item), q') =
        subst (λ x. claim now x got q ≡ (ok (some item), q')) (sym p) e in
      let (same, c) = claim-IsClaimed now skipped got q q' (some item) s' l' e' in
      let same' : got ≡ item = ground arith in subst (λ x. IsClaimed skipped x q q') same' c

  claim_round-IsClaimed :
      (now : ℕ) (skipped : List String) (stem : String) (item : QueueItem) (q q' : Queue Text)
      (next : Exec (Queue Text) (Option QueueItem))
      → ((q₁ : Queue Text) → next q₁ ≡ (ok (some item), q') → IsClaimed skipped item q₁ q')
      → contains skipped stem ≡ false
      → (loaded : Option QueueItem) → load_item SubDir.pending stem q ≡ loaded
      → claim_round now stem next loaded q ≡ (ok (some item), q')
      → IsClaimed skipped item q q'
  unfolding claim_round
  claim_round-IsClaimed now skipped stem item q q' next ih s none l e =
      let (r, q₁, e₁, e₂) = bind-ok (quarantine stem) (λ _. next) q q' (some item) e in
      earlier-IsClaimed skipped stem item q q₁ q' (quarantine-pending stem q q₁ e₁) (ih q₁ e₂)
  claim_round-IsClaimed now skipped stem item q q' next ih s (some got) l e =
      elim (Bool-cases (got.id == stem)) [
        | inl b ↦ claim-of now skipped stem got item q q' ((eq_iff got.id stem).0 b) s l (rw b at e)
        | inr b ↦
            let (r, q₁, e₁, e₂) =
              bind-ok (quarantine_mismatch stem got) (λ _. next) q q' (some item) (rw b at e) in
            earlier-IsClaimed skipped stem item q q₁ q'
              (quarantine_mismatch-pending stem got q q₁ e₁) (ih q₁ e₂)
      ]

  claim_from-IsClaimed :
      (now : ℕ) (skipped stems : List String) (item : QueueItem) (q q' : Queue Text)
      → claim_from now skipped stems q ≡ (ok (some item), q')
      → IsClaimed skipped item q q'
  unfolding claim_from ◌>>=◌
  claim_from-IsClaimed now skipped [] item q q' e = ground arith
  claim_from-IsClaimed now skipped (stem ∷ rest) item q q' e =
      elim (Bool-cases (contains skipped stem)) [
        | inl b ↦ claim_from-IsClaimed now skipped rest item q q' (rw b at e)
        | inr b ↦
            claim_round-IsClaimed now skipped stem item q q' (claim_from now skipped rest)
              (λ q₁ d. claim_from-IsClaimed now skipped rest item q₁ q' d) b
              (load_item SubDir.pending stem q) refl (rw b at e)
      ]

  -- An item that claim_next returns is none to skip: its file was pending under its own id, is now
  -- in processing and no longer in pending, the row of its content hash says processing, and fewer
  -- of the pending files are left to claim.
  pub claim_next-IsClaimed :
      (now : ℕ) (skipped : List String) (item : QueueItem) (q q' : Queue Text)
      → claim_next now skipped q ≡ (ok (some item), q')
      → IsClaimed skipped item q q'
  unfolding claim_next dirs_or_raise ◌>>=◌
  claim_next-IsClaimed now skipped item q q' e =
      let (r, q₁, e₁, e₂) = bind-ok dirs_or_raise (λ _. listed) q q' (some item) e in
      let same : q₁ ≡ q = ground arith in
      claim_from-IsClaimed now skipped (list_items_sorted q.dirs.pending) item q q'
        (subst (λ s. listed s ≡ (ok (some item), q')) same e₂)
    where
      listed : Exec (Queue Text) (Option QueueItem)
      listed s = claim_from now skipped (list_items_sorted s.dirs.pending) s
