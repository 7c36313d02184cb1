-- ===== src/Queue/Hash/Buckets.antt =====
-- queue/queue.py: what the content hash of a new item depends on.
use sms_gateway_v.Base.{ℕ, String, ◌≡◌, refl, true, some, arith}
use sms_gateway_v.Queue.Models.{DateTime, IncomingSms, Hashing, new, utc, validate_content_hash}
use sms_gateway_v.Queue.Hash.{
  bucket_seconds, content_hash, content_hash_for_item, with_content_hash,
}

-- Two messages with the same number and text, stamped in one zone and one bucket.
pub record IsRepeat (minutes : ℕ) (sms sms' : IncomingSms) : Type 0 where
  pub stamp : DateTime
  pub stamp' : DateTime
  pub stamped : sms.timestamp ≡ some stamp
  pub stamped' : sms'.timestamp ≡ some stamp'
  pub number : sms'.number ≡ sms.number
  pub text : sms'.text ≡ sms.text
  pub zone : stamp'.tzinfo ≡ stamp.tzinfo
  pub bucket : bucket_seconds minutes stamp' ≡ bucket_seconds minutes stamp

module _ ⦃hashing : Hashing⦄ where
  pub hash_of_new :
      (minutes now : ℕ) (hex : String) (sms : IncomingSms)
      → content_hash_for_item minutes (with_content_hash minutes (new now hex sms))
        ≡ content_hash minutes sms (utc now)
  unfolding content_hash_for_item with_content_hash new
  hash_of_new minutes now hex sms = refl

  pub content_hash_valid :
      (minutes now : ℕ) (hex : String) (sms : IncomingSms)
      → validate_content_hash (with_content_hash minutes (new now hex sms)).content_hash ≡ true
  unfolding content_hash_for_item with_content_hash new validate_content_hash content_hash
  content_hash_valid minutes now hex sms = hashing.digest _

  pub content_hash-repeat :
      (minutes now now' : ℕ) (sms sms' : IncomingSms)
      → IsRepeat minutes sms sms'
      → content_hash minutes sms' (utc now') ≡ content_hash minutes sms (utc now)
  unfolding content_hash
  content_hash-repeat minutes now now' sms sms' same = ground arith
