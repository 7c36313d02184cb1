-- ===== src/Import/Source.antt =====
-- scripts/import-gammu-dedup.py: the messages that the script reads. The rows of the SQLite table
-- and of the CSV file, and what reading them raises, are arguments.
use sms_gateway_v.Base.{
  ℕ, zero, suc, ◌-◌, String, Bool, false, ◌&&◌, Option, none, some, List, [], ◌∷◌, ◌++◌, leb,
  contains, length, if◌then◌else◌,
}
use sms_gateway_v.Queue.Models.{DateTime}
use sms_gateway_v.Telegram.Message.{Chars, chars, take}
use sms_gateway_v.Telegram.Message.Strip.{strip}
use sms_gateway_v.Modem.Timestamps.{is_sign, is_digit, replace_z}

-- `ValueError`, `sqlite3.Error`, and any exception that `main` does not handle
pub data ImportError : Type 0 where
  value_error sqlite_error foreign : ImportError

-- The `timestamp` has a zone: `_parse_timestamp` returns no other.
pub record GammuMessage : Type 0 where
  pub number : String
  pub text : String
  pub timestamp : DateTime

-- The generator of messages: it is exhausted, it raises, or it yields a message.
pub data Messages : Type 0 where
  exhausted : Messages
  raises : ImportError → Messages
  yields : GammuMessage → Messages → Messages

-- What `datetime` parses: a time with a zone, or the reading of a wall clock.
pub data Parsed : Type 0 where
  aware : DateTime → Parsed
  naive : ℕ → Parsed

-- The `datetime` and `zoneinfo` modules; `none` is a `ValueError`.
pub record Calendar : Type 0 where
  pub fromisoformat : Chars → Option Parsed
  pub strptime : Chars → String → Option Parsed
  pub in_zone : ℕ → String → DateTime
  pub has_zone : String → Bool

drop : ℕ → Chars → Chars
drop zero cs = cs
drop (suc n) [] = []
drop (suc n) (c ∷ cs) = drop n cs

-- `value[-5]` is a sign and `value[-4:]` is decimal.
with_colon : Chars → Chars → Chars → Chars
unfolding is_sign is_digit
with_colon value before (sign ∷ h ∷ i ∷ m ∷ n ∷ []) =
    if is_sign sign && (is_digit h && (is_digit i && (is_digit m && is_digit n)))
    then before ++ (sign ∷ h ∷ i ∷ b':' ∷ m ∷ n ∷ [])
    else value
with_colon value before other = value

-- _normalize_timestamp_offset
unfoldable pub normalize_timestamp_offset : Chars → Chars
unfolding with_colon drop
normalize_timestamp_offset value =
    let start = length value - 5 in
    if leb 5 (length value) then with_colon value (take start value) (drop start value) else value

module _ ⦃calendar : Calendar⦄ where
  first_of : Chars → List String → Option Parsed
  first_of text [] = none
  first_of text (fmt ∷ fmts) =
      let rest = first_of text fmts in
      elim (calendar.strptime text fmt) [ some parsed ↦ some parsed | none ↦ rest ]

  parsed_of : Chars → Option Parsed
  unfolding first_of replace_z
  parsed_of text = elim (calendar.fromisoformat (normalize_timestamp_offset (replace_z text))) [
    | some parsed ↦ some parsed
    | none ↦ first_of text ("%Y-%m-%d %H:%M:%S" ∷ "%Y-%m-%dT%H:%M:%S" ∷ [])
  ]

  in_source_timezone : Option String → Option Parsed → Option DateTime
  in_source_timezone source_timezone none = none
  in_source_timezone source_timezone (some (aware t)) = some t
  in_source_timezone none (some (naive wall)) = none
  in_source_timezone (some timezone) (some (naive wall)) = some (calendar.in_zone wall timezone)

  parse_stripped : Option String → Chars → Option DateTime
  unfolding parsed_of in_source_timezone
  parse_stripped source_timezone [] = none
  parse_stripped source_timezone (c ∷ cs) = in_source_timezone source_timezone (parsed_of (c ∷ cs))

  -- _parse_timestamp; `none` is its ValueError
  unfoldable pub parse_timestamp : Option String → Chars → Option DateTime
  unfolding parse_stripped strip
  parse_timestamp source_timezone raw = parse_stripped source_timezone (strip raw)

-- What a reader does at its end: it stops, or it raises.
pub ended : Option ImportError → Messages
ended none = exhausted
ended (some e) = raises e

yield_parsed : String → String → Option DateTime → Messages → Messages
yield_parsed number text none rest = raises value_error
yield_parsed number text (some t) rest =
    yields (record { number = number; text = text; timestamp = t }) rest

-- A row of the inbox, its columns by `str`; `none` is NULL.
pub record GammuRow : Type 0 where
  pub number : Option String
  pub text : Option String
  pub received_at : Option String

-- The header of the CSV file, and each row as `row.get`.
pub record CsvFile : Type 0 where
  pub opens : Option ImportError
  pub fieldnames : Option (List String)
  pub rows : List (String → Option String)
  pub ends : Option ImportError

module _ ⦃calendar : Calendar⦄ where
  yield_row : Option String → Option String → Option String → Option String → Messages → Messages
  unfolding yield_parsed
  yield_row timezone (some number) (some text) (some raw) rest =
      yield_parsed number text (parse_timestamp timezone (chars raw)) rest
  yield_row timezone number text raw rest = rest

  -- _read_gammu_sqlite; `ends` is what the cursor raises after the rows
  unfoldable pub read_gammu_sqlite : Option String → Option ImportError → List GammuRow → Messages
  unfolding yield_row ended
  read_gammu_sqlite timezone ends [] = ended ends
  read_gammu_sqlite timezone ends (row ∷ rows) =
      yield_row timezone row.number row.text row.received_at (read_gammu_sqlite timezone ends rows)

  yield_csv : Option String → Option String → Option String → Option String → Messages → Messages
  unfolding yield_parsed
  yield_csv timezone (some number) (some text) (some raw) rest =
      yield_parsed number text (parse_timestamp timezone (chars raw)) rest
  yield_csv timezone number text raw rest = raises value_error

  read_csv_rows : Option String → Option ImportError → List (String → Option String) → Messages
  unfolding yield_csv ended
  read_csv_rows timezone ends [] = ended ends
  read_csv_rows timezone ends (row ∷ rows) =
      yield_csv timezone (row "number") (row "text") (row "timestamp")
        (read_csv_rows timezone ends rows)

  has_required : Option (List String) → Bool
  has_required none = false
  has_required (some fieldnames) =
      contains fieldnames "number"
      && (contains fieldnames "text" && contains fieldnames "timestamp")

  read_opened : Option String → Option ImportError → CsvFile → Messages
  unfolding has_required read_csv_rows
  read_opened timezone (some e) file = raises e
  read_opened timezone none file =
      if has_required file.fieldnames
      then read_csv_rows timezone file.ends file.rows
      else raises value_error

  -- _read_csv
  unfoldable pub read_csv : Option String → CsvFile → Messages
  unfolding read_opened
  read_csv timezone file = read_opened timezone file.opens file
