-- ===== src/Modem/Messages/Waits.antt =====
-- modem/client.py: the wait for the text of a message ends.
use sms_gateway_v.Base.{
  ℕ, zero, suc, ◌+◌, ◌-◌, ◌≤◌, ◌≡◌, refl, String, Bool, true, arith, ltb, min, ◌==◌, if◌then◌else◌,
  Bool-cases, inl, inr,
}
use sms_gateway_v.Exec.{
  Exec, out_of_fuel, Result, ok, raised, modem, modem_error, pure, continue, ◌>>=◌,
}
use sms_gateway_v.Exec.Raises.{is_fuelled}
use sms_gateway_v.Exec.Keeps.{Keeps, Keeps-bind, Keeps-if, Keeps-gets, Keeps-raise, Keeps-pure}
use sms_gateway_v.Exec.Runs.{Runs}
use sms_gateway_v.Modem.Bus.{Bus}
use sms_gateway_v.Modem.Client.{Client, words}
use sms_gateway_v.Modem.Client.Kept.{call-cases}
use sms_gateway_v.Modem.Client.Clock.{Since-Stable}
use sms_gateway_v.Modem.Watchers.Clock.{add_watcher-Since}
use sms_gateway_v.Modem.Watchers.Kept.{StableLink}
use sms_gateway_v.Modem.Control.Kept.{Runs-read_required}
use sms_gateway_v.Modem.Control.{read_required}
use sms_gateway_v.Modem.Messages.{
  text_poll_interval, read_text, wait_for_change, wait_for_text_from, wait_for_sms_text,
}

module _ ⦃bus : Bus⦄ where
  abbrev pub waited : Bool → String → ℕ → Client → Client
  waited reports path timeout c =
      let slept = if reports then min (bus.text_changed c.calls path) timeout else timeout in
      record c { calls = suc c.calls; now = c.now + slept }

module _ ⦃bus : Bus⦄ (takes_time : (n : ℕ) → 1 ≤ bus.takes n) where
  -- the rest of a round, once the text was read
  round-fuelled :
      (again : Exec Client String) (r : Result String) (c : Client)
      → is_fuelled r ≡ true
      → is_fuelled (again c).0 ≡ true
      → is_fuelled (continue r (λ text. if text == "" then again else pure text) c).0 ≡ true
  unfolding ◌>>=◌
  round-fuelled again (ok text) c p h = elim (Bool-cases (text == "")) [
    | inl b ↦ rw b h
    | inr b ↦ rw b refl
  ]
  round-fuelled again (raised e) c p h = p

  read_text-ends :
      (path : String) (c : Client)
      → (is_fuelled (read_text path c).0 ≡ true) × (c.now + 1 ≤ (read_text path c).1.now)
  unfolding read_text read_required
  read_text-ends path c = (
    (Runs-read_required (Since-Stable 0) (add_watcher-Since 0) "Text"
          (λ n. bus.property n path "Text")).fuelled
        c (omega arith),
    elim (call-cases
        (λ fault cause. modem modem_error (words "failed to read required modem property" "Text"))
        (λ n. bus.property n path "Text") c) [
          | inl (a, e) ↦ rw e (omega (arith, takes_time c.calls))
          | inr (x, e) ↦ rw e (omega (arith, takes_time c.calls))
        ],
  )

  now-waited :
      (reports : Bool) (path : String) (timeout : ℕ) (c : Client)
      → c.now ≤ (waited reports path timeout c).now
  now-waited reports path timeout c = omega arith

  wait_from-fuelled :
      (fuel : ℕ) (reports : Bool) (deadline : ℕ) (path : String) (c : Client)
      → deadline ≤ c.now + fuel
      → is_fuelled (wait_for_text_from (suc fuel) reports deadline path c).0 ≡ true
  unfolding wait_for_text_from wait_for_change ◌>>=◌
  wait_from-fuelled zero reports deadline path c h = elim (Bool-cases (ltb c.now deadline)) [
    | inl b ↦ absurd (ground (arith, b))
    | inr b ↦ simp b
  ]
  wait_from-fuelled (suc fuel) reports deadline path c h = elim (Bool-cases (ltb c.now deadline)) [
    | inl b ↦ simp b (
        let d = waited reports path (min text_poll_interval (deadline - c.now)) c in
        let ends = read_text-ends path d in
        round-fuelled (wait_for_text_from (suc fuel) reports deadline path) (read_text path d).0
          (read_text path d).1 ends.0
          (wait_from-fuelled fuel reports deadline path (read_text path d).1 (
            omega (
              arith,
              ends.1,
              now-waited reports path (min text_poll_interval (deadline - c.now)) c,
            ))))
    | inr b ↦ simp b
  ]

  pub wait_for_sms_text-fuelled :
      (reports : Bool) (timeout : ℕ) (path : String) (c : Client)
      → is_fuelled (wait_for_sms_text reports timeout path c).0 ≡ true
  unfolding wait_for_sms_text ◌>>=◌
  wait_for_sms_text-fuelled reports timeout path c =
      wait_from-fuelled timeout reports (c.now + timeout) path c (omega arith)

module _ ⦃bus : Bus⦄ {I : Client → Type 0} (l : StableLink I)
    (passed : (c : Client) (n t : ℕ) → I c → I (record c { calls = n; now = c.now + t })) where
  wait_for_change-kept :
      (reports : Bool) (path : String) (timeout : ℕ)
      → Keeps I (wait_for_change reports path timeout)
  unfolding wait_for_change
  wait_for_change-kept reports path timeout = record { at = λ c i. passed c _ _ i }

  read_text-kept : (path : String) → Keeps I (read_text path)
  unfolding read_text
  read_text-kept path = record { at = (Runs-read_required l.stable l.added _ _).keeps }

  wait_from-kept :
      (fuel : ℕ) (reports : Bool) (deadline : ℕ) (path : String)
      → Keeps I (wait_for_text_from fuel reports deadline path)
  unfolding wait_for_text_from
  wait_from-kept zero reports deadline path = Keeps-raise out_of_fuel
  wait_from-kept (suc fuel) reports deadline path = Keeps-bind _ _ (Keeps-gets _) (λ in_time.
      Keeps-if in_time _ _
        (Keeps-bind _ _ (Keeps-gets _) (λ remaining.
          Keeps-bind _ _ (wait_for_change-kept reports path _) (λ a.
            Keeps-bind _ _ (read_text-kept path) (λ text.
              Keeps-if _ _ _ (wait_from-kept fuel reports deadline path) (Keeps-pure text)))))
        (Keeps-pure ""))

  pub Runs-wait_for_sms_text :
      ((n : ℕ) → 1 ≤ bus.takes n)
      → (reports : Bool) (timeout : ℕ) (path : String)
      → Runs I (wait_for_sms_text reports timeout path)
  unfolding wait_for_sms_text ◌>>=◌
  Runs-wait_for_sms_text takes_time reports timeout path = record {
    keeps = λ c i. (wait_from-kept (suc timeout) reports (c.now + timeout) path).at c i;
    fuelled = λ c i. wait_for_sms_text-fuelled takes_time reports timeout path c;
  }
