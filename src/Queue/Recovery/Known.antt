-- ===== src/Queue/Recovery/Known.antt =====
-- queue/queue.py: what the reconciliation of one directory makes of the dedup store.
use sms_gateway_v.Base.{
  ℕ, ◌+◌, String, ◌≡◌, refl, Bool, true, false, Option, none, some, List, [], ◌∷◌, is_some,
  contains, ap, ◌∙◌, arith, eq_iff, ◌==◌, if◌then◌else◌, Option-cases, Bool-cases, inl, inr,
}
use sms_gateway_v.Exec.{Result, raised, ok, ◌>>=◌}
use sms_gateway_v.Queue.Models.{ItemStatus, QueueItem, Codec, Hashing}
use sms_gateway_v.Queue.Dedup.{row_of}
use sms_gateway_v.Queue.Dedup.Upserts.{
  noted, reconcile_status-noted, noted-keeps, noted-known, connected-noted,
}
use sms_gateway_v.Queue.Directory.{file, list_items_sorted, contains-list_items_sorted}
use sms_gateway_v.Queue.State.{SubDir, Queue, dir, load_item, on_dedup}
use sms_gateway_v.Queue.Hash.{content_hash_for_item}
use sms_gateway_v.Queue.Recovery.{reconcile_one, reconcile_from, reconcile_status_dir}

abbrev pub is_ok : {A : Type 0} → Result A → Bool
is_ok (ok a) = true
is_ok (raised e) = false

module _ {Text : Type 0} where
  abbrev pub is_known : String → Queue Text → Bool
  is_known h q = is_some (row_of h q.dedup.rows)

  -- The store is open, and only gains hashes; all else stays.
  pub record Reconciled (q q' : Queue Text) : Type 0 where
    pub dirs : q'.dirs ≡ q.dirs
    pub minutes : q'.dedup_window_minutes ≡ q.dedup_window_minutes
    pub initialized : q'.initialized ≡ q.initialized
    pub connected : q'.dedup.connected ≡ true
    pub keeps : (h : String) → is_known h q ≡ true → is_known h q' ≡ true

  unmoved : (q : Queue Text) → q.dedup.connected ≡ true → Reconciled q q
  unmoved q c = record {
    dirs = refl;
    minutes = refl;
    initialized = refl;
    connected = c;
    keeps = λ h e. e;
  }

  pub afterwards : (q1 q2 q3 : Queue Text) → Reconciled q1 q2 → Reconciled q2 q3 → Reconciled q1 q3
  afterwards q1 q2 q3 r t = record {
    dirs = t.dirs ∙ r.dirs;
    minutes = t.minutes ∙ r.minutes;
    initialized = t.initialized ∙ r.initialized;
    connected = t.connected;
    keeps = λ h e. t.keeps h (r.keeps h e);
  }

counted : String → Option QueueItem → ℕ
counted stem none = 0
counted stem (some item) = if item.id == stem then 1 else 0

module _ ⦃hashing : Hashing⦄ where
  abbrev pub hash_of : ℕ → String → Option QueueItem → Option String
  hash_of minutes stem none = none
  hash_of minutes stem (some item) =
      if item.id == stem then some (content_hash_for_item minutes item) else none

module _ {Text : Type 0} ⦃codec : Codec Text⦄ ⦃hashing : Hashing⦄ where
  -- the content hash of the message that a readable file holds under its own id
  abbrev pub hash_in : SubDir → String → Queue Text → Option String
  hash_in s stem q = hash_of q.dedup_window_minutes stem (load_item s stem q)

  note : ℕ → String → ItemStatus → Option QueueItem → Queue Text → Queue Text
  note now stem st none q = q
  note now stem st (some item) q =
      if item.id == stem
      then record q {
        dedup = noted now (content_hash_for_item q.dedup_window_minutes item) item.id st q.dedup;
      }
      else q

  reconcile_one-note :
      (now : ℕ) (stem : String) (st : ItemStatus) (l : Option QueueItem) (q : Queue Text)
      → q.dedup.connected ≡ true
      → reconcile_one now stem st l q ≡ (ok (counted stem l), note now stem st l q)
  unfolding reconcile_one on_dedup ◌>>=◌ note counted
  reconcile_one-note now stem st none q c = refl
  reconcile_one-note now stem st (some item) q c = elim (Bool-cases (item.id == stem)) [
    | inl b ↦ simp (
      b,
      reconcile_status-noted now (content_hash_for_item q.dedup_window_minutes item) item.id st
          q.dedup c,
    )
    | inr b ↦ simp b
  ]

  noted-Reconciled :
      (now : ℕ) (h item_id : String) (st : ItemStatus) (q : Queue Text)
      → q.dedup.connected ≡ true
      → Reconciled q (record q { dedup = noted now h item_id st q.dedup })
  noted-Reconciled now h item_id st q c = record {
    dirs = refl;
    minutes = refl;
    initialized = refl;
    connected = connected-noted now h item_id st q.dedup ∙ c;
    keeps = λ k e. noted-keeps now h item_id k st q.dedup e;
  }

  note-Reconciled :
      (now : ℕ) (stem : String) (st : ItemStatus) (l : Option QueueItem) (q : Queue Text)
      → q.dedup.connected ≡ true
      → Reconciled q (note now stem st l q)
  unfolding note
  note-Reconciled now stem st none q c = unmoved q c
  note-Reconciled now stem st (some item) q c = elim (Bool-cases (item.id == stem)) [
    | inl b ↦
        rw b
          (noted-Reconciled now (content_hash_for_item q.dedup_window_minutes item) item.id st q c)
    | inr b ↦ rw b (unmoved q c)
  ]

  note-known :
      (now : ℕ) (stem h : String) (st : ItemStatus) (l : Option QueueItem) (q : Queue Text)
      → hash_of q.dedup_window_minutes stem l ≡ some h
      → is_known h (note now stem st l q) ≡ true
  unfolding note
  note-known now stem h st none q e = cc
  note-known now stem h st (some item) q e = ground (arith, noted-known now h item.id st q.dedup)

  reconcile_from-step :
      (now : ℕ) (s : SubDir) (st : ItemStatus) (stem : String) (rest : List String) (count : ℕ)
      (q : Queue Text)
      → q.dedup.connected ≡ true
      → reconcile_from now s st (stem ∷ rest) count q
        ≡ reconcile_from now s st rest
            (count + counted stem (load_item s stem q))
            (note now stem st (load_item s stem q) q)
  unfolding reconcile_from ◌>>=◌
  reconcile_from-step now s st stem rest count q c =
      rw (reconcile_one-note now stem st (load_item s stem q) q c) refl

  reconcile_from-none :
      (now : ℕ) (s : SubDir) (st : ItemStatus) (count : ℕ) (q : Queue Text)
      → reconcile_from now s st [] count q ≡ (ok count, q)
  unfolding reconcile_from ◌>>=◌
  reconcile_from-none now s st count q = refl

  pub hash_in-Reconciled :
      (s : SubDir) (k : String) (q q' : Queue Text)
      → Reconciled q q'
      → hash_in s k q' ≡ hash_in s k q
  unfolding load_item
  hash_in-Reconciled s k q q' r = rw r.dirs (rw r.minutes refl)

  -- What a loop over the files of a directory comes to.
  reconcile_from-Reconciled :
      (now : ℕ) (s : SubDir) (st : ItemStatus) (stems : List String) (count : ℕ) (q : Queue Text)
      → q.dedup.connected ≡ true
      → (is_ok (reconcile_from now s st stems count q).0 ≡ true)
        × Reconciled q (reconcile_from now s st stems count q).1
        × ((k h : String)
            → contains stems k ≡ true
            → hash_in s k q ≡ some h
            → is_known h (reconcile_from now s st stems count q).1 ≡ true)
  reconcile_from-Reconciled now s st [] count q c =
      rw (reconcile_from-none now s st count q) (refl, unmoved q c, (λ k h i e. cc))
  reconcile_from-Reconciled now s st (stem ∷ rest) count q c =
      let l = load_item s stem q in
      let n = note-Reconciled now stem st l q c in
      let r =
        reconcile_from-Reconciled now s st rest (count + counted stem l) (note now stem st l q)
          n.connected in
      rw (reconcile_from-step now s st stem rest count q c) (
        r.0,
        afterwards _ _ _ n r.1,
        (λ k h i e. elim (Bool-cases (stem == k)) [
          | inl b ↦
              r.1.keeps h
                (note-known now stem h st l q (ap (λ x. hash_in s x q) ((eq_iff stem k).0 b) ∙ e))
          | inr b ↦ r.2 k h (ground (arith, i, b)) (hash_in-Reconciled s k q _ n ∙ e)
        ]),
      )

  hash_in-found :
      (s : SubDir) (k h : String) (q : Queue Text)
      → hash_in s k q ≡ some h
      → is_some (file k (dir s q.dirs)) ≡ true
  unfolding load_item
  hash_in-found s k h q e = elim (Option-cases (file k (dir s q.dirs))) [
    | inl n ↦ cc
    | inr (f, n) ↦ ground (arith, n)
  ]

  pub reconcile_status_dir-Reconciled :
      (now : ℕ) (s : SubDir) (st : ItemStatus) (q : Queue Text)
      → q.dedup.connected ≡ true
      → (is_ok (reconcile_status_dir now s st q).0 ≡ true)
        × Reconciled q (reconcile_status_dir now s st q).1
        × ((k h : String)
            → hash_in s k q ≡ some h
            → is_known h (reconcile_status_dir now s st q).1 ≡ true)
  unfolding reconcile_status_dir ◌>>=◌
  reconcile_status_dir-Reconciled now s st q c =
      let r = reconcile_from-Reconciled now s st (list_items_sorted (dir s q.dirs)) 0 q c in
      (
        r.0,
        r.1,
        (λ k h e.
            r.2 k h (contains-list_items_sorted k (dir s q.dirs) ∙ hash_in-found s k h q e) e),
      )
