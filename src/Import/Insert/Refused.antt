-- ===== src/Import/Insert/Refused.antt =====
-- scripts/import-gammu-dedup.py: the relay refuses what the script has imported, and a second run
-- imports nothing.
use sms_gateway_v.Base.{
  ℕ, String, ◌≡◌, sym, ap, subst, ◌∙◌, ◌⊎◌, inl, inr, true, none, some, List, is_some, arith,
}
use sms_gateway_v.Exec.{ok}
use sms_gateway_v.Queue.Models.{DateTime, IncomingSms, Codec, Hashing, utc}
use sms_gateway_v.Queue.Dedup.{Row, row_of}
use sms_gateway_v.Queue.State.{Queue}
use sms_gateway_v.Queue.Hash
use sms_gateway_v.Queue.Hash.{bucket_seconds}
use sms_gateway_v.Queue.Hash.Buckets.{hash_of_new}
use sms_gateway_v.Queue.Enqueue.{enqueue}
use sms_gateway_v.Queue.Enqueue.Once.{enqueue_known}
use sms_gateway_v.Import.Source.{GammuMessage, Messages, exhausted, raises, yields, Calendar}
use sms_gateway_v.Import.Insert.{Counts, Target, Args, imported, content_hash, read_source, main}
use sms_gateway_v.Import.Insert.Grown.{AllKnown}
use sms_gateway_v.Import.Insert.Imports.{imported-Grown}

-- The generator yields the message.
abbrev pub IsYielded : GammuMessage → Messages → Type 0
IsYielded message exhausted = ⊥
IsYielded message (raises e) = ⊥
IsYielded message (yields m messages) = (m ≡ message) ⊎ IsYielded message messages

module _ ⦃env : Hashing⦄ where
  -- The modem delivers an imported message again: the same number and text, stamped in a bucket
  -- that is written alike.
  pub record IsRedelivery (minutes : ℕ) (message : GammuMessage) (sms : IncomingSms) : Type 0 where
    pub stamp : DateTime
    pub stamped : sms.timestamp ≡ some stamp
    pub number : sms.number ≡ message.number
    pub text : sms.text ≡ message.text
    pub bucket :
        env.isoformat (bucket_seconds minutes stamp) stamp.tzinfo
        ≡ env.isoformat (bucket_seconds minutes message.timestamp) message.timestamp.tzinfo

  known-yielded :
      (minutes : ℕ) (message : GammuMessage) (messages : Messages) (rows : List Row)
      → AllKnown minutes messages rows
      → IsYielded message messages
      → is_some (row_of (content_hash minutes message) rows) ≡ true
  known-yielded minutes message exhausted rows k y = absurd y
  known-yielded minutes message (raises e) rows k y = absurd y
  known-yielded minutes message (yields m messages) rows k (inl e) =
      subst (λ x. is_some (row_of (content_hash minutes x) rows) ≡ true) e k.0
  known-yielded minutes message (yields m messages) rows k (inr y) =
      known-yielded minutes message messages rows k.1 y

  hash_of_redelivery :
      (minutes now : ℕ) (message : GammuMessage) (sms : IncomingSms)
      → IsRedelivery minutes message sms
      → content_hash minutes message ≡ Hash.content_hash minutes sms (utc now)
  unfolding content_hash Hash.content_hash bucket_seconds
  hash_of_redelivery minutes now message sms same = ground arith

module _ ⦃env : Hashing⦄ ⦃calendar : Calendar⦄ where
  -- Where `main` has returned 0, and the relay runs on the dedup store it has left, with the same
  -- dedup window: when the modem delivers an imported message again, with the number and the text of
  -- the import and with a timestamp whose bucket of the window has the same ISO text, offset
  -- included, `enqueue` on that open queue refuses it, and no file changes.
  pub import_refused :
      {Text : Type 0} ⦃codec : Codec Text⦄ ⦃target : Target⦄
      → (now now' : ℕ) (hex : String) (args : Args) (rows : List Row) (n : Counts)
        (message : GammuMessage) (sms : IncomingSms) (q : Queue Text)
      → main now args rows ≡ (imported n, q.dedup.rows)
      → IsYielded message (read_source args.source_timezone args.source)
      → IsRedelivery args.dedup_window_minutes message sms
      → q.initialized ≡ true
      → q.dedup.connected ≡ true
      → q.dedup_window_minutes ≡ args.dedup_window_minutes
      → ((enqueue now' hex sms q).0 ≡ ok none) × ((enqueue now' hex sms q).1.dirs ≡ q.dirs)
  import_refused now now' hex args rows n message sms q e yielded same i c w =
      let minutes = args.dedup_window_minutes in
      let known =
        known-yielded minutes message _ q.dedup.rows
          (imported-Grown now args rows q.dedup.rows n e).known yielded in
      let is_known =
        subst (λ h. is_some (row_of h q.dedup.rows) ≡ true)
          (hash_of_redelivery minutes now' message sms same
            ∙ ap (λ m. Hash.content_hash m sms (utc now')) (sym w))
          known in
      enqueue_known now' hex sms q
        (inl (rw (hash_of_new q.dedup_window_minutes now' hex sms) is_known)) i c
