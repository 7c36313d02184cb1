-- ===== src/Import/Insert/Again.antt =====
-- scripts/import-gammu-dedup.py: a second run of the script on what the first has left.
use sms_gateway_v.Base.{
  ℕ, suc, String, ◌≡◌, refl, true, Option, none, some, List, is_some, arith, if_holds, ltb,
}
use sms_gateway_v.Queue.Models.{Hashing}
use sms_gateway_v.Queue.Dedup.{Row, row_of}
use sms_gateway_v.Import.Source.{
  ImportError, value_error, sqlite_error, foreign, Messages, exhausted, raises, yields, Calendar,
}
use sms_gateway_v.Import.Insert.{
  Counts, Imported, counted, failed, Target, Args, Exit, imported, refused, traceback, content_hash,
  count_row, insert_or_ignore, read_source, main, exit_of, insert_each, insert_hashes, committed,
  no_counts, is_resolved, source_exists,
}
use sms_gateway_v.Import.Insert.Grown.{AllKnown}
use sms_gateway_v.Import.Insert.Imports.{Left, exit_of-Left, insert_hashes-Stored, imported-Grown}

-- No row is new, where the import ends.
abbrev pub NoneNew : Counts → List Row → Imported × List Row → Type 0
NoneNew n rows (counted n', rows') = (n'.inserted ≡ n.inserted) × (rows' ≡ rows)
NoneNew n rows (failed e, rows') = Unit

module _ ⦃env : Hashing⦄ ⦃target : Target⦄ where
  NoneNew-found :
      (now : ℕ) (h : String) (n : Counts) (rows : List Row) (found : Option Row)
      (next : Counts → List Row → Imported × List Row)
      → is_some found ≡ true
      → ((m : Counts) → NoneNew m rows (next m rows))
      → NoneNew n rows (next (count_row (is_some found) n) (insert_or_ignore now h found rows))
  unfolding count_row insert_or_ignore
  NoneNew-found now h n rows (some x) next p k =
      go (next (record n { rows_read = suc n.rows_read; duplicates = suc n.duplicates }) rows) (k _)
    where
      go :
          (r : Imported × List Row)
          → NoneNew (record n { rows_read = suc n.rows_read; duplicates = suc n.duplicates }) rows r
          → NoneNew n rows r
      go (counted m, rows') l = l
      go (failed e, rows') l = tt
  NoneNew-found now h n rows none next p k = absurd (ground (arith, p))

  at_statement :
      (n : Counts) (rows : List Row) (raised : Option ImportError) (rest : Imported × List Row)
      → NoneNew n rows rest
      → NoneNew n rows
          (elim raised as (λ o. Imported × List Row) [ some e ↦ (failed e, rows) | none ↦ rest ])
  at_statement n rows none rest l = l
  at_statement n rows (some e) rest l = tt

  insert_each-NoneNew :
      (minutes now : ℕ) (messages : Messages) (n : Counts) (rows : List Row)
      → AllKnown minutes messages rows
      → NoneNew n rows (insert_each minutes now messages n rows)
  unfolding insert_each
  insert_each-NoneNew minutes now exhausted n rows k = (refl, refl)
  insert_each-NoneNew minutes now (raises e) n rows k = tt
  insert_each-NoneNew minutes now (yields message messages) n rows k =
      at_statement n rows (target.executes n.rows_read) _ (
        NoneNew-found now (content_hash minutes message) n rows
          (row_of (content_hash minutes message) rows) (insert_each minutes now messages) k.0
          (λ m. insert_each-NoneNew minutes now messages m rows k.1))

  committed-NoneNew :
      (rows : List Row) (r : Imported × List Row)
      → NoneNew no_counts rows r
      → NoneNew no_counts rows (committed rows r)
  unfolding committed
  committed-NoneNew rows (failed e, rows') l = tt
  committed-NoneNew rows (counted n, rows') l = go target.commits
    where
      go :
          (o : Option ImportError)
          → NoneNew no_counts rows (elim o as (λ p. Imported × List Row) [
            | some e ↦ (failed e, rows)
            | none ↦ (counted n, rows')
          ])
      go none = l
      go (some e) = tt

  insert_hashes-NoneNew :
      (minutes now : ℕ) (messages : Messages) (rows : List Row)
      → AllKnown minutes messages rows
      → NoneNew no_counts rows (insert_hashes minutes now messages rows)
  unfolding insert_hashes
  insert_hashes-NoneNew minutes now messages rows k = at_statement no_counts rows target.opens _ (
      committed-NoneNew rows (insert_each minutes now messages no_counts rows)
        (insert_each-NoneNew minutes now messages no_counts rows k))

module _ ⦃env : Hashing⦄ ⦃calendar : Calendar⦄ where
  -- A run inserts nothing, and leaves the rows as they are.
  abbrev pub InsertsNone : List Row → Exit × List Row → Type 0
  InsertsNone rows (imported n, rows') = (n.inserted ≡ 0) × (rows' ≡ rows)
  InsertsNone rows (refused, rows') = rows' ≡ rows
  InsertsNone rows (traceback e, rows') = rows' ≡ rows

  exit_of-InsertsNone :
      (args : Args) (rows : List Row) (r : Imported × List Row)
      → NoneNew no_counts rows r
      → Left args rows (exit_of r.0) r.1
      → InsertsNone rows (exit_of r.0, r.1)
  unfolding exit_of
  exit_of-InsertsNone args rows (counted n, rows') l k = l
  exit_of-InsertsNone args rows (failed value_error, rows') l k = k
  exit_of-InsertsNone args rows (failed sqlite_error, rows') l k = k
  exit_of-InsertsNone args rows (failed foreign, rows') l k = k

  main-InsertsNone :
      ⦃target : Target⦄
      → (now : ℕ) (args : Args) (rows : List Row)
      → AllKnown args.dedup_window_minutes (read_source args.source_timezone args.source) rows
      → InsertsNone rows (main now args rows)
  unfolding main
  main-InsertsNone now args rows k =
      let minutes = args.dedup_window_minutes in
      let messages = read_source args.source_timezone args.source in
      let result = insert_hashes minutes now messages rows in
      let done =
        exit_of-InsertsNone args rows result (insert_hashes-NoneNew minutes now messages rows k)
          (exit_of-Left args rows result (insert_hashes-Stored minutes now messages rows)) in
      let P = λ (x : Exit × List Row). InsertsNone rows x in
      if_holds P (ltb minutes 1) refl (
        if_holds P (is_resolved args.source_timezone)
          (if_holds P (source_exists args.source) done refl) refl)

  -- Where a run of `main` has returned 0, a second run with the same arguments, at any time and
  -- whatever the target database raises then, inserts no row and leaves the store as it is.
  pub import_again :
      (first second : Target) (now now' : ℕ) (args : Args) (rows rows' : List Row) (n : Counts)
      → main ⦃target = first⦄ now args rows ≡ (imported n, rows')
      → InsertsNone rows' (main ⦃target = second⦄ now' args rows')
  import_again first second now now' args rows rows' n e =
      main-InsertsNone ⦃target = second⦄ now' args rows'
        (imported-Grown ⦃target = first⦄ now args rows rows' n e).known
