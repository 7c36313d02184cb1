-- ===== src/Import/Insert/Imports.antt =====
-- scripts/import-gammu-dedup.py: what an import leaves in the dedup store.
use sms_gateway_v.Base.{subst, ℕ, ◌≡◌, refl, Option, none, some, List, ltb, if_holds}
use sms_gateway_v.Queue.Models.{Hashing}
use sms_gateway_v.Queue.Dedup.{Row}
use sms_gateway_v.Import.Source.{
  ImportError, value_error, sqlite_error, foreign, Messages, Calendar,
}
use sms_gateway_v.Import.Insert.Grown.{Grown, GrownIf, Stored, insert_each-Grown}
use sms_gateway_v.Import.Insert.{
  Counts, Imported, counted, failed, Target, insert_each, committed, insert_hashes, no_counts, Args,
  Exit, imported, refused, traceback, exit_of, source_exists, is_resolved, read_source, main,
}

module _ ⦃env : Hashing⦄ ⦃target : Target⦄ where
  committed-Stored :
      (minutes : ℕ) (messages : Messages) (rows : List Row) (r : Imported) (rows' : List Row)
      → GrownIf minutes messages no_counts rows r rows'
      → Stored minutes messages rows (committed rows (r, rows'))
  unfolding committed
  committed-Stored minutes messages rows (failed e) rows' g = refl
  committed-Stored minutes messages rows (counted n) rows' g = go target.commits
    where
      go :
          (o : Option ImportError)
          → Stored minutes messages rows (elim o as (λ p. Imported × List Row) [
            | some e ↦ (failed e, rows)
            | none ↦ (counted n, rows')
          ])
      go none = g
      go (some e) = refl

  pub insert_hashes-Stored :
      (minutes now : ℕ) (messages : Messages) (rows : List Row)
      → Stored minutes messages rows (insert_hashes minutes now messages rows)
  unfolding insert_hashes
  insert_hashes-Stored minutes now messages rows = go target.opens
    where
      each : Imported × List Row
      each = insert_each minutes now messages no_counts rows

      go :
          (o : Option ImportError)
          → Stored minutes messages rows (elim o as (λ p. Imported × List Row) [
            | some e ↦ (failed e, rows)
            | none ↦ committed rows each
          ])
      go none =
          committed-Stored minutes messages rows each.0 each.1
            (insert_each-Grown minutes now messages no_counts rows)
      go (some e) = refl

module _ ⦃env : Hashing⦄ ⦃calendar : Calendar⦄ where
  -- What an exit of `main` says of the rows.
  abbrev pub Left : Args → List Row → Exit → List Row → Type 0
  Left args rows (imported n) rows' =
      Grown args.dedup_window_minutes (read_source args.source_timezone args.source) no_counts rows
        n rows'
  Left args rows refused rows' = rows' ≡ rows
  Left args rows (traceback e) rows' = rows' ≡ rows

  pub exit_of-Left :
      (args : Args) (rows : List Row) (r : Imported × List Row)
      → Stored args.dedup_window_minutes (read_source args.source_timezone args.source) rows r
      → Left args rows (exit_of r.0) r.1
  unfolding exit_of
  exit_of-Left args rows (counted n, rows') g = g
  exit_of-Left args rows (failed value_error, rows') g = g
  exit_of-Left args rows (failed sqlite_error, rows') g = g
  exit_of-Left args rows (failed foreign, rows') g = g

  -- If `main` returns 0, the rows it has read are the messages of the source, each of them was
  -- inserted or was a duplicate, the store has as many new rows as were inserted, each message has
  -- a row, each hash that had a row has the same row, and the hashes stay a key. If it returns 2 or
  -- raises, the store is as it was before.
  pub main-Left :
      ⦃target : Target⦄
      → (now : ℕ) (args : Args) (rows : List Row)
      → Left args rows (main now args rows).0 (main now args rows).1
  unfolding main
  main-Left now args rows =
      let minutes = args.dedup_window_minutes in
      let messages = read_source args.source_timezone args.source in
      let result = insert_hashes minutes now messages rows in
      let stored = exit_of-Left args rows result (insert_hashes-Stored minutes now messages rows) in
      let P = λ (x : Exit × List Row). Left args rows x.0 x.1 in
      if_holds P (ltb minutes 1) refl (
        if_holds P (is_resolved args.source_timezone)
          (if_holds P (source_exists args.source) stored refl) refl)

  pub imported-Grown :
      ⦃target : Target⦄
      → (now : ℕ) (args : Args) (rows rows' : List Row) (n : Counts)
      → main now args rows ≡ (imported n, rows')
      → Grown args.dedup_window_minutes
          (read_source args.source_timezone args.source)
          no_counts
          rows
          n
          rows'
  imported-Grown now args rows rows' n e =
      subst (λ x. Left args rows x.0 x.1) e (main-Left now args rows)
