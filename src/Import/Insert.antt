-- ===== src/Import/Insert.antt =====
-- scripts/import-gammu-dedup.py: the hashes that the script inserts, and its exit code. The time is
-- an argument; what the target database raises is a parameter.
pub mod Grown
pub mod Imports
pub mod Refused
pub mod Again
use Prim.Native.String.{◌++◌ as append}
use sms_gateway_v.Base.{
  ℕ, zero, suc, ◌+◌, ◌*◌, ◌/◌, String, Bool, true, false, Option, none, some, List, [], ◌∷◌, ltb,
  is_some, if◌then◌else◌,
}
use sms_gateway_v.Queue.Models.{DateTime, ItemStatus, Hashing}
use sms_gateway_v.Queue.Dedup.{Row, row_of, new_row}
use sms_gateway_v.Import.Source.{
  ImportError, value_error, sqlite_error, foreign, GammuMessage, Messages, exhausted, raises,
  yields, Calendar, GammuRow, CsvFile, read_gammu_sqlite, read_csv,
}

pub record Counts : Type 0 where
  pub rows_read : ℕ
  pub inserted : ℕ
  pub duplicates : ℕ

pub data Imported : Type 0 where
  counted : Counts → Imported
  failed : ImportError → Imported

-- What the target raises when it is opened, at a statement, and at the commit.
pub record Target : Type 0 where
  pub opens : Option ImportError
  pub executes : ℕ → Option ImportError
  pub commits : Option ImportError

-- `text[:n]`
text_prefix : ℕ → String → String
text_prefix zero text = ""
text_prefix (suc n) String.[] = ""
text_prefix (suc n) (String.◌∷◌ c text) = String.◌∷◌ c (text_prefix n text)

pub item_id : String → String
unfolding text_prefix
item_id h = append "gammu-import-" (text_prefix 16 h)

-- `INSERT OR IGNORE`, where `found` is the row that has the hash
pub insert_or_ignore : ℕ → String → Option Row → List Row → List Row
unfolding item_id
insert_or_ignore now h (some found) rows = rows
insert_or_ignore now h none rows = new_row now h (item_id h) ItemStatus.sent ∷ rows

abbrev pub no_counts : Counts
no_counts = record { rows_read = 0; inserted = 0; duplicates = 0 }

-- One more row was read, and was there before or was not.
pub count_row : Bool → Counts → Counts
count_row true n = record n { rows_read = suc n.rows_read; duplicates = suc n.duplicates }
count_row false n = record n { rows_read = suc n.rows_read; inserted = suc n.inserted }

module _ ⦃env : Hashing⦄ where
  -- _content_hash
  unfoldable pub content_hash : ℕ → GammuMessage → String
  content_hash minutes message =
      let window_seconds = minutes * 60 in
      let bucket_seconds =
        message.timestamp.instant / 1_000_000 / window_seconds * window_seconds in
      let bucket = env.isoformat bucket_seconds message.timestamp.tzinfo in
      env.sha256 (append (append (append (append message.number "|") message.text) "|") bucket)

  module _ ⦃target : Target⦄ where
    -- the loop of _insert_hashes
    pub insert_each : ℕ → ℕ → Messages → Counts → List Row → Imported × List Row
    unfolding insert_or_ignore count_row
    insert_each minutes now exhausted n rows = (counted n, rows)
    insert_each minutes now (raises e) n rows = (failed e, rows)
    insert_each minutes now (yields message messages) n rows =
        let h = content_hash minutes message in
        let found = row_of h rows in
        let rest =
          insert_each minutes now messages (count_row (is_some found) n)
            (insert_or_ignore now h found rows) in
        elim (target.executes n.rows_read) [ some e ↦ (failed e, rows) | none ↦ rest ]

    -- The connection as a context: an exception rolls the transaction back.
    pub committed : List Row → Imported × List Row → Imported × List Row
    committed before (failed e, rows) = (failed e, before)
    committed before (counted n, rows) = elim target.commits [
      | some e ↦ (failed e, before)
      | none ↦ (counted n, rows)
    ]

    -- _insert_hashes
    unfoldable pub insert_hashes : ℕ → ℕ → Messages → List Row → Imported × List Row
    unfolding insert_each committed
    insert_hashes minutes now messages rows = elim target.opens [
      | some e ↦ (failed e, rows)
      | none ↦ committed rows (insert_each minutes now messages no_counts rows)
    ]

-- The source that the arguments name, and whether its file exists.
pub data Source : Type 0 where
  gammu_db : Bool → Option ImportError → List GammuRow → Source
  csv : Bool → CsvFile → Source

-- `dedup_window_minutes` stands for every number below 1 by 0.
pub record Args : Type 0 where
  pub source : Source
  pub dedup_window_minutes : ℕ
  pub source_timezone : Option String

pub source_exists : Source → Bool
source_exists (gammu_db exists ends rows) = exists
source_exists (csv exists file) = exists

-- How `main` ends: with 0 and its counts, with 2, or with an exception.
pub data Exit : Type 0 where
  imported : Counts → Exit
  refused : Exit
  traceback : ImportError → Exit

pub exit_of : Imported → Exit
exit_of (counted n) = imported n
exit_of (failed value_error) = refused
exit_of (failed sqlite_error) = refused
exit_of (failed foreign) = traceback foreign

module _ ⦃calendar : Calendar⦄ where
  unfoldable pub read_source : Option String → Source → Messages
  read_source zone (gammu_db exists ends rows) = read_gammu_sqlite zone ends rows
  read_source zone (csv exists file) = read_csv zone file

  -- _resolve_source_timezone
  pub is_resolved : Option String → Bool
  is_resolved none = true
  is_resolved (some name) = calendar.has_zone name

  module _ ⦃env : Hashing⦄ ⦃target : Target⦄ where
    -- main
    unfoldable pub main : ℕ → Args → List Row → Exit × List Row
    unfolding read_source is_resolved source_exists exit_of
    main now args rows =
        let (result, rows') =
          insert_hashes args.dedup_window_minutes now (read_source args.source_timezone args.source)
            rows in
        if ltb args.dedup_window_minutes 1
        then (refused, rows)
        else if is_resolved args.source_timezone
        then if source_exists args.source then (exit_of result, rows') else (refused, rows)
        else (refused, rows)
