-- ===== src/Tests/ImportRuns.antt =====
-- Runs of the importer's theorems, on a CSV file with one message.
use sms_gateway_v.Base.{
  String, ◌≡◌, refl, inl, true, Option, none, some, [], ◌∷◌, ◌==◌, if◌then◌else◌,
}
use sms_gateway_v.Exec.{ok}
use sms_gateway_v.Queue.Models.{utc, QueueItem}
use sms_gateway_v.Queue.Dedup.{row_of}
use sms_gateway_v.Queue.State.{Queue}
use sms_gateway_v.Queue.Enqueue.{enqueue}
use sms_gateway_v.Import.Source.{GammuMessage, Calendar, CsvFile, aware, read_csv, parse_timestamp}
use sms_gateway_v.Import.Insert.{
  Target, Args, csv, imported, Counts, main, content_hash, insert_hashes, read_source,
}
use sms_gateway_v.Import.Insert.Imports.{Left, main-Left}
use sms_gateway_v.Import.Insert.Refused.{import_refused}
use sms_gateway_v.Import.Insert.Again.{InsertsNone, import_again}
use sms_gateway_v.Tests.Fixtures.{item_codec, constant_hashing, hello, opened}

instance abbrev one_date : Calendar
one_date = record {
  fromisoformat = λ text. some (aware (utc 600_000_000));
  strptime = λ text fmt. none;
  in_zone = λ wall timezone. utc wall;
  has_zone = λ name. true;
}

instance abbrev healthy : Target
healthy = record { opens = none; executes = λ n. none; commits = none }

abbrev column : String → Option String
column name =
    if name == "number" then some "+100" else if name == "text" then some "hello" else some "now"

abbrev one_row : CsvFile
one_row = record {
  opens = none;
  fieldnames = some ("number" ∷ "text" ∷ "timestamp" ∷ []);
  rows = column ∷ [];
  ends = none;
}

abbrev args : Args
args = record { source = csv true one_row; dedup_window_minutes = 10; source_timezone = none }

abbrev message : GammuMessage
message = record { number = "+100"; text = "hello"; timestamp = utc 600_000_000 }

abbrev one_inserted : Counts
one_inserted = record { rows_read = 1; inserted = 1; duplicates = 0 }

abbrev after_import : Queue QueueItem
after_import = record opened { dedup = record { connected = true; rows = (main 7 args []).1 } }

main_example : Left args [] (main 7 args []).0 (main 7 args []).1
main_example = main-Left 7 args []

main_runs : main 7 args [] ≡ (imported one_inserted, after_import.dedup.rows)
unfolding main read_csv insert_hashes parse_timestamp content_hash row_of
main_runs = refl

import_refused_example :
    ((enqueue 900 "ab" hello after_import).0 ≡ ok none)
    × ((enqueue 900 "ab" hello after_import).1.dirs ≡ after_import.dirs)
unfolding read_source read_csv parse_timestamp
import_refused_example =
    import_refused 7 900 "ab" args [] one_inserted message hello after_import main_runs (inl refl)
      (record {
        stamp = utc 600_000_000;
        stamped = refl;
        number = refl;
        text = refl;
        bucket = refl;
      })
      refl refl refl

import_again_example : InsertsNone after_import.dedup.rows (main 8 args after_import.dedup.rows)
import_again_example =
    import_again healthy healthy 7 8 args [] after_import.dedup.rows one_inserted main_runs
