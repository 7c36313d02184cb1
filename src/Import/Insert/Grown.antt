-- ===== src/Import/Insert/Grown.antt =====
-- scripts/import-gammu-dedup.py: what the loop of the import leaves of the counts and the rows.
use sms_gateway_v.Base.{
  ℕ, suc, ◌+◌, String, ◌≡◌, refl, true, Option, none, some, List, is_some, length, arith, eq_iff,
  eq_refl, ap, ◌∙◌,
}
use sms_gateway_v.Queue.Models.{Hashing}
use sms_gateway_v.Queue.Dedup.{Row, row_of}
use sms_gateway_v.Queue.Dedup.Laws.{IsKeyed}
use sms_gateway_v.Import.Source.{ImportError, GammuMessage, Messages, exhausted, raises, yields}
use sms_gateway_v.Import.Insert.{
  Counts, Imported, counted, failed, Target, insert_or_ignore, count_row, content_hash, insert_each,
  no_counts,
}

-- how many messages are yielded
pub yielded : Messages → ℕ
yielded exhausted = 0
yielded (raises e) = 0
yielded (yields message messages) = suc (yielded messages)

-- Each hash that had a row has the same row.
abbrev pub Extends : List Row → List Row → Type 0
Extends rows rows' = (h : String) → is_some (row_of h rows) ≡ true → row_of h rows' ≡ row_of h rows

Extends-fresh :
    (now : ℕ) (h : String) (rows : List Row)
    → row_of h rows ≡ none
    → Extends rows (insert_or_ignore now h none rows)
unfolding insert_or_ignore row_of
Extends-fresh now h rows e k p = ground (arith, eq_iff h k)

fresh-known :
    (now : ℕ) (h : String) (rows : List Row)
    → is_some (row_of h (insert_or_ignore now h none rows)) ≡ true
unfolding insert_or_ignore row_of
fresh-known now h rows = ground (arith, eq_refl h)

known-Extends :
    (h : String) (rows rows' : List Row)
    → Extends rows rows'
    → is_some (row_of h rows) ≡ true
    → is_some (row_of h rows') ≡ true
known-Extends h rows rows' extends p = ap is_some (extends h p) ∙ p

module _ ⦃env : Hashing⦄ where
  -- Each yielded message has a row.
  abbrev pub AllKnown : ℕ → Messages → List Row → Type 0
  AllKnown minutes exhausted rows = Unit {0}
  AllKnown minutes (raises e) rows = Unit {0}
  AllKnown minutes (yields message messages) rows =
      (is_some (row_of (content_hash minutes message) rows) ≡ true) × AllKnown minutes messages rows

  -- What a loop that ends leaves of the counts and the rows that it began with.
  pub record Grown (minutes : ℕ) (messages : Messages) (n : Counts) (rows : List Row) (n' : Counts)
      (rows' : List Row) : Type 0 where
    pub read : n'.rows_read ≡ n.rows_read + yielded messages
    pub split : n'.inserted + n'.duplicates ≡ n.inserted + n.duplicates + yielded messages
    pub added : length rows' + n.inserted ≡ length rows + n'.inserted
    pub keyed : IsKeyed rows → IsKeyed rows'
    pub extends : Extends rows rows'
    pub known : AllKnown minutes messages rows'

  abbrev pub GrownIf : ℕ → Messages → Counts → List Row → Imported → List Row → Type 0
  GrownIf minutes messages n rows (counted n') rows' = Grown minutes messages n rows n' rows'
  GrownIf minutes messages n rows (failed e) rows' = Unit

  -- An import that fails has changed nothing.
  abbrev pub Stored : ℕ → Messages → List Row → Imported × List Row → Type 0
  Stored minutes messages rows (counted n, rows') = Grown minutes messages no_counts rows n rows'
  Stored minutes messages rows (failed e, rows') = rows' ≡ rows

  Grown-yields :
      (minutes now : ℕ) (message : GammuMessage) (messages : Messages) (n : Counts)
      (rows : List Row) (found : Option Row) (r : Imported) (rows' : List Row)
      → row_of (content_hash minutes message) rows ≡ found
      → GrownIf minutes messages
          (count_row (is_some found) n)
          (insert_or_ignore now (content_hash minutes message) found rows)
          r
          rows'
      → GrownIf minutes (yields message messages) n rows r rows'
  unfolding yielded count_row insert_or_ignore
  Grown-yields minutes now message messages n rows found (failed x) rows' e g = tt
  Grown-yields minutes now message messages n rows none (counted n') rows' e g =
      let fresh = Extends-fresh now (content_hash minutes message) rows e in
      record {
        read = omega (arith, g.read);
        split = omega (arith, g.split);
        added = omega (arith, g.added);
        keyed = λ k. g.keyed (e, k);
        extends = λ h k. g.extends h (known-Extends h rows _ fresh k) ∙ fresh h k;
        known = (
          known-Extends (content_hash minutes message) _ rows' g.extends
              (fresh-known now (content_hash minutes message) rows),
          g.known,
        );
      }
  Grown-yields minutes now message messages n rows (some x) (counted n') rows' e g = record {
    read = omega (arith, g.read);
    split = omega (arith, g.split);
    added = omega (arith, g.added);
    keyed = g.keyed;
    extends = g.extends;
    known =
        (known-Extends (content_hash minutes message) rows rows' g.extends (ap is_some e), g.known);
  }

module _ ⦃env : Hashing⦄ ⦃target : Target⦄ where
  at_statement :
      (minutes : ℕ) (messages : Messages) (n : Counts) (rows : List Row)
      (raised : Option ImportError) (rest : Imported × List Row)
      → GrownIf minutes messages n rows rest.0 rest.1
      → GrownIf minutes messages n rows
          (elim raised as (λ o. Imported × List Row) [ some e ↦ (failed e, rows) | none ↦ rest ]).0
          (elim raised as (λ o. Imported × List Row) [ some e ↦ (failed e, rows) | none ↦ rest ]).1
  at_statement minutes messages n rows none rest g = g
  at_statement minutes messages n rows (some e) rest g = tt

  pub insert_each-Grown :
      (minutes now : ℕ) (messages : Messages) (n : Counts) (rows : List Row)
      → GrownIf minutes messages n rows
          (insert_each minutes now messages n rows).0
          (insert_each minutes now messages n rows).1
  unfolding insert_each yielded
  insert_each-Grown minutes now exhausted n rows = record {
    read = omega arith;
    split = omega arith;
    added = refl;
    keyed = λ k. k;
    extends = λ h p. refl;
    known = tt;
  }
  insert_each-Grown minutes now (raises x) n rows = tt
  insert_each-Grown minutes now (yields message messages) n rows =
      let h = content_hash minutes message in
      let n1 = count_row (is_some (row_of h rows)) n in
      let rows1 = insert_or_ignore now h (row_of h rows) rows in
      let rest = insert_each minutes now messages n1 rows1 in
      at_statement minutes (yields message messages) n rows (target.executes n.rows_read) rest (
        Grown-yields minutes now message messages n rows (row_of h rows) rest.0 rest.1 refl
          (insert_each-Grown minutes now messages n1 rows1))
