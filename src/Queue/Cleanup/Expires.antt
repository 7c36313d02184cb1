-- ===== src/Queue/Cleanup/Expires.antt =====
-- queue/queue.py: which files and rows a cleanup removes.
use sms_gateway_v.Base.{
  ℕ, ◌+◌, ◌*◌, ◌≤◌, leb, le→leb, String, ◌≡◌, ◌∙◌, ap, refl, Bool, true, false, some, ltb, not,
  ◌&&◌, ◌||◌, Option, none, List, [], ◌∷◌, contains, if◌then◌else◌, arith, eq_iff, Bool-cases,
  Option-cases, inl, inr,
}
use sms_gateway_v.Exec.{ok, ◌>>=◌}
use sms_gateway_v.Queue.Models.{ItemStatus}
use sms_gateway_v.Queue.Directory.{
  File, Directory, file, unlink, list_items_sorted, file-unlink, contains-list_items_sorted,
}
use sms_gateway_v.Queue.Dedup
use sms_gateway_v.Queue.Dedup.{Row, cutoff, ids_older, ids, without_older}
use sms_gateway_v.Queue.Dedup.Aged.{
  has_row, has_old_row, young_rows, before_cutoff, contains-ids, contains-ids_older,
  without_older-young,
}
use sms_gateway_v.Queue.State.{Queue, dirs_or_raise, on_dedup}
use sms_gateway_v.Queue.Cleanup.{
  remove_item_files, older, remove_unknown_from, cleanup, cleanup_sent, cleanup_failed,
}

module _ {Text : Type 0} where
  file-remove_item_files :
      (k : String) (item_ids : List String) (d : Directory Text)
      → file k (remove_item_files item_ids d).1 ≡ (if contains item_ids k then none else file k d)
  unfolding remove_item_files
  file-remove_item_files k [] d = refl
  file-remove_item_files k (i ∷ rest) d = elim (Option-cases (file i d)) [
    | inl e ↦ ground (arith, file-remove_item_files k rest d, eq_iff i k)
    | inr (f, e) ↦
        ground (arith, file-remove_item_files k rest (unlink i d), file-unlink i k d, eq_iff i k)
  ]

  file-remove_unknown_from :
      (k : String) (known : List String) (before : ℕ) (stems : List String) (d : Directory Text)
      → file k (remove_unknown_from known before stems d).1 ≡ (
          if contains stems k && (not (contains known k) && older before (file k d))
          then none
          else file k d)
  unfolding remove_unknown_from older
  file-remove_unknown_from k known before [] d = refl
  file-remove_unknown_from k known before (stem ∷ rest) d =
      elim (Bool-cases (not (contains known stem) && older before (file stem d))) [
        | inl e ↦ ground (
          arith,
          file-remove_unknown_from k known before rest (unlink stem d),
          file-unlink stem k d,
          eq_iff stem k,
          Option-cases (file k d),
          Option-cases (file stem d),
        )
        | inr e ↦ ground (
          arith,
          file-remove_unknown_from k known before rest d,
          eq_iff stem k,
          Option-cases (file k d),
          Option-cases (file stem d),
        )
      ]

  -- The file was last changed more than so many days ago.
  abbrev pub is_aged : ℕ → ℕ → Option (File Text) → Bool
  is_aged now days none = false
  is_aged now days (some f) = ltb (f.mtime + days * 86_400_000_000) now

  -- Whether a cleanup removes a file: its id has a row of the status that is too old, or has no row
  -- at all and the file is too old.
  abbrev pub expires : ItemStatus → ℕ → ℕ → String → Option (File Text) → Queue Text → Bool
  expires st now days k f q =
      has_old_row st now days k q.dedup.rows || (not (has_row k q.dedup.rows) && is_aged now days f)

  older-is_aged :
      (now days : ℕ) (f : Option (File Text)) → older (cutoff now days) f ≡ is_aged now days f
  unfolding older
  older-is_aged now days none = refl
  older-is_aged now days (some f) = before_cutoff f.mtime now days

  -- The directory after both of the loops.
  swept : List String → List String → ℕ → Directory Text → Directory Text
  swept item_ids known before d =
      let d' = (remove_item_files item_ids d).1 in
      (remove_unknown_from known before (list_items_sorted d') d').1

  swept_count : List String → List String → ℕ → Directory Text → ℕ
  swept_count item_ids known before d =
      let (n, d') = remove_item_files item_ids d in
      n + (remove_unknown_from known before (list_items_sorted d') d').0

  file-swept :
      (k : String) (item_ids known : List String) (before : ℕ) (d : Directory Text)
      → file k (swept item_ids known before d) ≡ (
          if contains item_ids k || (not (contains known k) && older before (file k d))
          then none
          else file k d)
  unfolding swept older
  file-swept k item_ids known before d =
      let d' = (remove_item_files item_ids d).1 in
      ground (
        arith,
        file-remove_unknown_from k known before (list_items_sorted d') d',
        contains-list_items_sorted k d',
        file-remove_item_files k item_ids d,
        Option-cases (file k d),
      )

  file-expires :
      (st : ItemStatus) (now days : ℕ) (k : String) (rows : List Row) (d : Directory Text)
      → file k (swept (ids_older st (cutoff now days) rows) (ids rows) (cutoff now days) d) ≡ (
          if has_old_row st now days k rows || (not (has_row k rows) && is_aged now days (file k d))
          then none
          else file k d)
  file-expires st now days k rows d =
      file-swept k (ids_older st (cutoff now days) rows) (ids rows) (cutoff now days) d
      ∙ ap (λ b. if b then none else file k d)
          (cc (
            contains-ids_older st now days k rows,
            contains-ids k rows,
            older-is_aged now days (file k d),
          ))

  cleanup_sent-run :
      (now days : ℕ) (q : Queue Text)
      → q.initialized ≡ true
      → q.dedup.connected ≡ true
      → leb (days * 86_400_000_000) (now + 62_135_596_800_000_000) ≡ true
      → cleanup_sent now days q ≡ (
        ok (
            swept_count
              (ids_older ItemStatus.sent (cutoff now days) q.dedup.rows)
              (ids q.dedup.rows)
              (cutoff now days)
              q.dirs.sent),
        record q {
          dirs = record q.dirs {
            sent =
                swept
                  (ids_older ItemStatus.sent (cutoff now days) q.dedup.rows)
                  (ids q.dedup.rows)
                  (cutoff now days)
                  q.dirs.sent;
          };
          dedup = record q.dedup {
            rows = without_older ItemStatus.sent (cutoff now days) q.dedup.rows;
          };
        },
      )
  unfolding cleanup_sent cleanup swept swept_count dirs_or_raise on_dedup Dedup.item_ids_older_than
      Dedup.item_ids Dedup.purge_older_than Dedup.connection_or_raise Dedup.cutoff_or_raise ◌>>=◌
  cleanup_sent-run now days q i c fits = simp (i, c, fits)

  -- A cleanup of sent messages with an age in days, of an open queue with an open store, where so
  -- many days ago is no earlier than datetime.min: it returns; a sent file is gone if its id has a
  -- row with the status sent since more than so many days, or has no row at all and the file was
  -- last changed longer ago, and every other sent file stays; of the rows exactly those with the
  -- status sent since more than so many days are gone; and the files of pending, processing and
  -- failed are as before.
  pub cleanup_sent-swept :
      (now days : ℕ) (q : Queue Text)
      → q.initialized ≡ true
      → q.dedup.connected ≡ true
      → days * 86_400_000_000 ≤ now + 62_135_596_800_000_000
      → ((k : String)
          → file k (cleanup_sent now days q).1.dirs.sent ≡ (
              if expires ItemStatus.sent now days k (file k q.dirs.sent) q
              then none
              else file k q.dirs.sent))
        × ((cleanup_sent now days q).1.dedup.rows
            ≡ young_rows ItemStatus.sent now days q.dedup.rows)
        × ((cleanup_sent now days q).1.dirs.pending ≡ q.dirs.pending)
        × ((cleanup_sent now days q).1.dirs.processing ≡ q.dirs.processing)
        × ((cleanup_sent now days q).1.dirs.failed ≡ q.dirs.failed)
        × ((n : ℕ) × ((cleanup_sent now days q).0 ≡ ok n))
  cleanup_sent-swept now days q i c fits = rw (cleanup_sent-run now days q i c (le→leb _ _ fits)) (
    (λ k. file-expires ItemStatus.sent now days k q.dedup.rows q.dirs.sent),
    without_older-young ItemStatus.sent now days q.dedup.rows,
    refl,
    refl,
    refl,
    (_, refl),
  )

  cleanup_failed-run :
      (now days : ℕ) (q : Queue Text)
      → q.initialized ≡ true
      → q.dedup.connected ≡ true
      → leb (days * 86_400_000_000) (now + 62_135_596_800_000_000) ≡ true
      → cleanup_failed now days q ≡ (
        ok (
            swept_count
              (ids_older ItemStatus.failed (cutoff now days) q.dedup.rows)
              (ids q.dedup.rows)
              (cutoff now days)
              q.dirs.failed),
        record q {
          dirs = record q.dirs {
            failed =
                swept
                  (ids_older ItemStatus.failed (cutoff now days) q.dedup.rows)
                  (ids q.dedup.rows)
                  (cutoff now days)
                  q.dirs.failed;
          };
          dedup = record q.dedup {
            rows = without_older ItemStatus.failed (cutoff now days) q.dedup.rows;
          };
        },
      )
  unfolding cleanup_failed cleanup swept swept_count dirs_or_raise on_dedup
      Dedup.item_ids_older_than Dedup.item_ids Dedup.purge_older_than Dedup.connection_or_raise
      Dedup.cutoff_or_raise ◌>>=◌
  cleanup_failed-run now days q i c fits = simp (i, c, fits)

  -- A cleanup of failed messages with an age in days, of an open queue with an open store, where so
  -- many days ago is no earlier than datetime.min: it returns; a failed file is gone if its id has a
  -- row with the status failed since more than so many days, or has no row at all and the file was
  -- last changed longer ago, and every other failed file stays; of the rows exactly those with the
  -- status failed since more than so many days are gone; and the files of pending, processing and
  -- sent are as before.
  pub cleanup_failed-swept :
      (now days : ℕ) (q : Queue Text)
      → q.initialized ≡ true
      → q.dedup.connected ≡ true
      → days * 86_400_000_000 ≤ now + 62_135_596_800_000_000
      → ((k : String)
          → file k (cleanup_failed now days q).1.dirs.failed ≡ (
              if expires ItemStatus.failed now days k (file k q.dirs.failed) q
              then none
              else file k q.dirs.failed))
        × ((cleanup_failed now days q).1.dedup.rows
            ≡ young_rows ItemStatus.failed now days q.dedup.rows)
        × ((cleanup_failed now days q).1.dirs.pending ≡ q.dirs.pending)
        × ((cleanup_failed now days q).1.dirs.processing ≡ q.dirs.processing)
        × ((cleanup_failed now days q).1.dirs.sent ≡ q.dirs.sent)
        × ((n : ℕ) × ((cleanup_failed now days q).0 ≡ ok n))
  cleanup_failed-swept now days q i c fits =
      rw (cleanup_failed-run now days q i c (le→leb _ _ fits)) (
        (λ k. file-expires ItemStatus.failed now days k q.dedup.rows q.dirs.failed),
        without_older-young ItemStatus.failed now days q.dedup.rows,
        refl,
        refl,
        refl,
        (_, refl),
      )
