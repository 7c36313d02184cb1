-- ===== src/Queue/Recovery/Restores.antt =====
-- queue/queue.py: what `recover_processing` does with the files that a crash left in processing.
use sms_gateway_v.Base.{
  ℕ, suc, ◌+◌, String, ◌≡◌, refl, true, false, Option, none, some, List, [], ◌∷◌, is_some, contains,
  length, ap, ◌∙◌, arith, eq_iff, eq_refl, if◌then◌else◌, Option-cases, inl, inr,
}
use sms_gateway_v.Exec.{ok, ◌>>=◌}
use sms_gateway_v.Queue.Directory.Names.{Distinct}
use sms_gateway_v.Queue.Directory.{
  File, file, unlink, put, file-put, file-unlink, list_items_sorted, contains-list_items_sorted,
  IsUnique, list_items_sorted-Distinct, length-list_items_sorted,
}
use sms_gateway_v.Queue.State.{Queue, atomic_move, dirs_or_raise}
use sms_gateway_v.Queue.Recovery.{recover_from, recover_processing}

-- the file of the first directory, or else that of the second
abbrev pub first_of {ℓ} : {A : Type ℓ} → Option A → Option A → Option A
first_of none b = b
first_of (some a) b = some a

module _ {Text : Type 0} where
  -- The named files have moved; the others, and all else, are as they were.
  pub record IsRestored (stems : List String) (q q' : Queue Text) : Type 0 where
    pub in_pending :
        (k : String)
        → file k q'.dirs.pending ≡ (
            if contains stems k
            then first_of (file k q.dirs.processing) (file k q.dirs.pending)
            else file k q.dirs.pending)
    pub in_processing :
        (k : String)
        → file k q'.dirs.processing ≡ (if contains stems k then none else file k q.dirs.processing)
    pub sent : q'.dirs.sent ≡ q.dirs.sent
    pub failed : q'.dirs.failed ≡ q.dirs.failed
    pub dedup : q'.dedup ≡ q.dedup

  abbrev moved : String → File Text → Queue Text → Queue Text
  moved stem f q = record q {
    dirs = record q.dirs {
      processing = unlink stem q.dirs.processing;
      pending = put stem f q.dirs.pending;
    };
  }

  recover_from-moved :
      (stem : String) (rest : List String) (count : ℕ) (f : File Text) (q : Queue Text)
      → file stem q.dirs.processing ≡ some f
      → recover_from (stem ∷ rest) count q ≡ recover_from rest (suc count) (moved stem f q)
  unfolding recover_from atomic_move ◌>>=◌
  recover_from-moved stem rest count f q e = rw e refl

  moved-IsRestored :
      (stem : String) (rest : List String) (f : File Text) (q q' : Queue Text)
      → file stem q.dirs.processing ≡ some f
      → contains rest stem ≡ false
      → IsRestored rest (moved stem f q) q'
      → IsRestored (stem ∷ rest) q q'
  moved-IsRestored stem rest f q q' e n r = record {
    in_pending = λ k. ground (
      arith,
      r.in_pending k,
      file-put stem k f q.dirs.pending,
      file-unlink stem k q.dirs.processing,
      eq_iff stem k,
    );
    in_processing =
        λ k. ground (arith, r.in_processing k, file-unlink stem k q.dirs.processing, eq_iff stem k);
    sent = r.sent;
    failed = r.failed;
    dedup = r.dedup;
  }

  recover_from-none : (count : ℕ) (q : Queue Text) → recover_from [] count q ≡ (ok count, q)
  unfolding recover_from ◌>>=◌
  recover_from-none count q = refl

  recover_processing-listed :
      (q : Queue Text)
      → q.initialized ≡ true
      → recover_processing q ≡ recover_from (list_items_sorted q.dirs.processing) 0 q
  unfolding recover_processing dirs_or_raise ◌>>=◌
  recover_processing-listed q i = simp i

  recover_from-IsRestored :
      (stems : List String) (count : ℕ) (q : Queue Text)
      → Distinct stems
      → ((k : String) → contains stems k ≡ true → is_some (file k q.dirs.processing) ≡ true)
      → ((recover_from stems count q).0 ≡ ok (count + length stems))
        × IsRestored stems q (recover_from stems count q).1
  recover_from-IsRestored [] count q d h = rw (recover_from-none count q) (
    ap ok (omega arith),
    record {
      in_pending = λ k. refl;
      in_processing = λ k. refl;
      sent = refl;
      failed = refl;
      dedup = refl;
    },
  )
  recover_from-IsRestored (stem ∷ rest) count q d h =
      elim (Option-cases (file stem q.dirs.processing)) [
        | inl e ↦ absurd (missing e)
        | inr (f, e) ↦
            let later : (k : String)
                → contains rest k ≡ true
                → is_some (file k (unlink stem q.dirs.processing)) ≡ true =
              λ k c. ground (arith, h k, file-unlink stem k q.dirs.processing, eq_iff stem k) in
            let (r, t) = recover_from-IsRestored rest (suc count) (moved stem f q) d.1 later in
            rw (recover_from-moved stem rest count f q e)
              (r ∙ ap ok (omega arith), moved-IsRestored stem rest f q _ e d.0 t)
      ]
    where
      missing : file stem q.dirs.processing ≡ none → ⊥
      missing e = ground (arith, h stem, eq_refl stem)

  -- On an open queue whose processing directory names no file twice, the recovery returns the
  -- number of files in processing: each of them is pending, in place of a pending file of its name,
  -- processing is empty, the other pending files stay, and the sent and failed files and the dedup
  -- store are as before.
  pub recover_processing-IsRestored :
      (q : Queue Text)
      → q.initialized ≡ true
      → IsUnique q.dirs.processing
      → ((recover_processing q).0 ≡ ok (length q.dirs.processing))
        × ((k : String) → file k (recover_processing q).1.dirs.processing ≡ none)
        × ((k : String)
            → file k (recover_processing q).1.dirs.pending
              ≡ first_of (file k q.dirs.processing) (file k q.dirs.pending))
        × ((recover_processing q).1.dirs.sent ≡ q.dirs.sent)
        × ((recover_processing q).1.dirs.failed ≡ q.dirs.failed)
        × ((recover_processing q).1.dedup ≡ q.dedup)
  recover_processing-IsRestored q i u =
      let stems = list_items_sorted q.dirs.processing in
      let (r, t) =
        recover_from-IsRestored stems 0 q (list_items_sorted-Distinct q.dirs.processing u)
          (λ k c. ground (arith, contains-list_items_sorted k q.dirs.processing)) in
      rw (recover_processing-listed q i) (
        r ∙ ap ok (omega (arith, length-list_items_sorted q.dirs.processing)),
        (λ k. ground (arith, t.in_processing k, contains-list_items_sorted k q.dirs.processing)),
        (λ k. ground (arith, t.in_pending k, contains-list_items_sorted k q.dirs.processing)),
        t.sent,
        t.failed,
        t.dedup,
      )
