-- ===== src/Modem/Messages/Reads.antt =====
-- modem/client.py: what `read_message` returns.
use sms_gateway_v.Base.{
  ℕ, zero, suc, ◌+◌, ◌≤◌, ◌≡◌, refl, String, Bool, true, false, Option, none, some, arith, ◌==◌, ap,
  ◌∙◌,
}
use sms_gateway_v.Exec.{out_of_fuel}
use sms_gateway_v.Exec.Raises.{is_fuelled}
use sms_gateway_v.Exec.Gives.{
  Gives, Returns, Gives-bind, Gives-any, Gives-from, Gives-raise, Gives-pure, Gives-gets, Gives-if,
  Gives-kept, Gives-finally,
}
use sms_gateway_v.Exec.Runs.{Runs}
use sms_gateway_v.Queue.Models.{IncomingSms}
use sms_gateway_v.Modem.Models.{is_inbound}
use sms_gateway_v.Modem.Bus.{Bus}
use sms_gateway_v.Modem.Client.{Client}
use sms_gateway_v.Modem.Client.Clock.{Since, Since-Stable}
use sms_gateway_v.Modem.Watchers.Clock.{add_watcher-Since, Since-StableLink}
use sms_gateway_v.Modem.Timestamps.{IsoFormat}
use sms_gateway_v.Modem.Messages.{
  wait_for_text_from, wait_for_sms_text, text_or_wait, delayed_text, off_properties_changed,
  rest_of_sms, read_with_text, read_inbound, read_message,
}
use sms_gateway_v.Modem.Messages.Kept.{
  StableText, Runs-off, Runs-has_properties, Runs-read_pdu_type, Runs-read_text, Runs-on,
  Runs-disappeared, Runs-read_message,
}
use sms_gateway_v.Modem.Messages.Waits.{Runs-wait_for_sms_text}

-- What a read says of its message: a text that is there was received, and one that is not there was
-- waited for as long as the timeout says.
abbrev pub ReadAs : ℕ → String → ℕ → Option IncomingSms → Client → Type 0
ReadAs timeout path since none c = since + timeout ≤ c.now
ReadAs timeout path since (some sms) c =
    (sms.object_path ≡ path) × (is_inbound sms.pdu_type ≡ true) × ((sms.text == "") ≡ false)

-- the time is over if there is no text
abbrev pub OverIf : ℕ → String → Client → Type 0
OverIf deadline text c = (text == "") ≡ true → Since deadline c

module _ ⦃bus : Bus⦄ where
  wait_from-OverIf :
      {P : Client → Type 0} (fuel : ℕ) (reports : Bool) (deadline : ℕ) (path : String)
      → Gives P (OverIf deadline) (wait_for_text_from fuel reports deadline path)
  unfolding wait_for_text_from
  wait_from-OverIf zero reports deadline path = Gives-raise out_of_fuel
  wait_from-OverIf {P} (suc fuel) reports deadline path = Gives-bind _ (Gives-gets _) (λ in_time.
      Gives-if in_time
        (λ t. Gives-bind _ Gives-any (λ remaining. Gives-bind _ Gives-any (λ a.
          Gives-bind _ Gives-any (λ text.
            Gives-if (text == "") (λ b. wait_from-OverIf fuel reports deadline path)
              (λ b. Gives-pure text (λ c p q. ground (arith, b, q)))))))
        (λ t. Gives-pure "" (λ c p q. let e = p.1 ∙ t in ground (arith, e))))

  wait-OverIf :
      (reports : Bool) (timeout since : ℕ) (path : String)
      → Gives (Since since) (OverIf (since + timeout)) (wait_for_sms_text reports timeout path)
  unfolding wait_for_sms_text
  wait-OverIf reports timeout since path = Gives-bind _ (Gives-gets _) (λ deadline.
      Gives-from (λ c p. p) (wait_from-OverIf (suc timeout) reports deadline path)
        (λ c p text c' over b. let now = p.1 in omega (arith, p.0, now, over b)))

  text_or_wait-OverIf :
      (reports : Bool) (timeout since : ℕ) (path : String)
      → Gives (Since since) (OverIf (since + timeout)) (text_or_wait reports timeout path)
  unfolding text_or_wait
  text_or_wait-OverIf reports timeout since path =
      Gives-bind _ (Gives-kept (Runs-read_text (Since-Stable since) (add_watcher-Since since) path))
        (λ text.
          Gives-if (text == "") (λ b. wait-OverIf reports timeout since path)
            (λ b. Gives-pure text (λ c p q. ground (arith, b, q))))

module _ ⦃bus : Bus⦄ (takes_time : (n : ℕ) → 1 ≤ bus.takes n) where
  Since-StableText : (t : ℕ) → StableText (Since t)
  Since-StableText t = record {
    link = Since-StableLink t;
    reports = λ c paths i. i;
    waited = Runs-wait_for_sms_text (Since-StableLink t) (λ c n d i. omega (arith, i)) takes_time;
  }

  off-OverIf : (t : ℕ) (path text : String) → Runs (OverIf t text) (off_properties_changed path)
  off-OverIf t path text = record {
    keeps = λ c over b. (Runs-off (Since-StableText t) path).keeps c (over b);
    fuelled = λ c over. (Runs-off (Since-StableText 0) path).fuelled c (omega arith);
  }

  delayed_text-OverIf :
      (timeout since : ℕ) (path : String) (reports : Bool)
      → Gives (Since since) (OverIf (since + timeout)) (delayed_text timeout path reports)
  unfolding delayed_text
  delayed_text-OverIf timeout since path false = text_or_wait-OverIf false timeout since path
  delayed_text-OverIf timeout since path true =
      Gives-bind _ (Gives-kept (Runs-on (Since-StableText since) path)) (λ a.
        Gives-finally (text_or_wait-OverIf true timeout since path)
          (off-OverIf (since + timeout) path))

module _ ⦃bus : Bus⦄ ⦃iso : IsoFormat⦄ where
  rest_of_sms-is :
      {P : Client → Type 0} (path pdu_type text : String)
      → Gives P
          (λ sms c. (sms.object_path ≡ path) × (sms.pdu_type ≡ pdu_type) × (sms.text ≡ text))
          (rest_of_sms path pdu_type text)
  unfolding rest_of_sms
  rest_of_sms-is path pdu_type text =
      Gives-bind _ Gives-any
        (λ number. Gives-bind _ Gives-any (λ timestamp. Gives-pure _ (λ c p. (refl, refl, refl))))

  read_with_text-ReadAs :
      (timeout since : ℕ) (path pdu_type text : String)
      → is_inbound pdu_type ≡ true
      → Gives
          (OverIf (since + timeout) text)
          (ReadAs timeout path since)
          (read_with_text path pdu_type text)
  unfolding read_with_text
  read_with_text-ReadAs timeout since path pdu_type text inbound =
      Gives-if (text == "") (λ b. Gives-pure none (λ c over. over b))
        (λ b. Gives-bind _ (rest_of_sms-is path pdu_type text) (λ sms.
          Gives-pure (some sms)
            (λ c p. (p.0, ap is_inbound p.1 ∙ inbound, ap (λ t. t == "") p.2 ∙ b))))

  module _ (takes_time : (n : ℕ) → 1 ≤ bus.takes n) where
    read_inbound-ReadAs :
        (timeout since : ℕ) (path pdu_type : String)
        → is_inbound pdu_type ≡ true
        → Gives (Since since) (ReadAs timeout path since) (read_inbound timeout path pdu_type)
    unfolding read_inbound
    read_inbound-ReadAs timeout since path pdu_type inbound =
        Gives-bind _ (Gives-kept (Runs-has_properties (Since-StableText takes_time since) path))
          (λ reports.
            Gives-bind _ (delayed_text-OverIf takes_time timeout since path reports)
              (λ text. read_with_text-ReadAs timeout since path pdu_type text inbound))

    message-ReadAs :
        (timeout since : ℕ) (path : String)
        → Gives (Since since) (ReadAs timeout path since) (read_message timeout path)
    unfolding read_message
    message-ReadAs timeout since path =
        let x = Since-StableText takes_time since in
        Gives-bind _ (Gives-kept (Runs-disappeared x path)) (λ a.
          Gives-bind _ (Gives-kept (Runs-read_pdu_type x.link.stable x.link.added path))
            (λ pdu_type.
              Gives-if (is_inbound pdu_type)
                (λ inbound. read_inbound-ReadAs timeout since path pdu_type inbound)
                (λ b. Gives-raise _)))

    -- Where each D-Bus call takes time, `read_message` returns or raises an exception of the code.
    -- If it returns a message, the message has the path asked for, an inbound PDU type and a text
    -- that is not empty; if it returns none, at least `timeout` has passed since the call.
    pub read_message-ReadAs :
        (timeout : ℕ) (path : String) (c : Client)
        → (is_fuelled (read_message timeout path c).0 ≡ true)
          × Returns
              (ReadAs timeout path c.now)
              (read_message timeout path c).0
              (read_message timeout path c).1
    read_message-ReadAs timeout path c = (
      (Runs-read_message (Since-StableText takes_time 0) timeout path).fuelled c (omega arith),
      (message-ReadAs timeout c.now path).at c (omega arith),
    )
