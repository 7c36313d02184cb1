-- ===== src/Modem/Reset/Terminates.antt =====
-- modem/client.py: the wait for a modem that was reset ends.
use sms_gateway_v.Base.{
  ℕ, zero, suc, ◌+◌, ◌-◌, ◌*◌, ◌/◌, ◌≤◌, ◌≡◌, refl, String, Bool, true, false, arith, leb, ltb,
  Bool-cases, inl, inr,
}
use sms_gateway_v.Exec.{
  Exec, Exception, modem, modem_error, modem_not_found, queue_error, out_of_fuel, catch,
  handle_with, Result, ok, raised, continue, ◌>>=◌,
}
use sms_gateway_v.Exec.Raises.{is_fuelled, is_python}
use sms_gateway_v.Modem.Bus.{Bus}
use sms_gateway_v.Modem.Client.{Client}
use sms_gateway_v.Modem.Client.Clock.{Since-Stable}
use sms_gateway_v.Modem.Watchers.Clock.{add_watcher-Since}
use sms_gateway_v.Modem.Reset.{
  Look, reappeared, waits, poll_interval, look, look_failed, pause, sleep, after_look, wait_from,
  wait_for_reset_reappear,
}
use sms_gateway_v.Modem.Reset.Looks.{Runs-look, Runs-looked}

-- a value, or an exception of the code that is none of the modem's
abbrev pub is_settled : {A : Type 0} → Result A → Bool
is_settled (ok a) = true
is_settled (raised (modem failure message)) = false
is_settled (raised out_of_fuel) = false
is_settled (raised e) = true

catch-settled :
    {A : Type 0} (body : Exec Client A) (handler : Exception → Exec Client A) (c : Client)
    → is_fuelled (body c).0 ≡ true
    → ((e : Exception) (c' : Client) → is_python e ≡ true → is_settled (handler e c').0 ≡ true)
    → is_settled (catch body handler c).0 ≡ true
unfolding ◌>>=◌
catch-settled {A} body handler c p h = go (body c).0 (body c).1 p
  where
    go :
        (r : Result A) (c' : Client)
        → is_fuelled r ≡ true
        → is_settled (handle_with handler r c').0 ≡ true
    go (ok a) c' q = refl
    go (raised e) c' q = h e c' q

settled-fuelled : {A : Type 0} (r : Result A) → is_settled r ≡ true → is_fuelled r ≡ true
settled-fuelled (ok a) p = refl
settled-fuelled (raised (modem failure message)) p = cc
settled-fuelled (raised out_of_fuel) p = cc
settled-fuelled (raised queue_error) p = refl
settled-fuelled (raised e) p = refl

module _ ⦃bus : Bus⦄ where
  -- The time that is left is covered by so many rounds.
  abbrev Covers : ℕ → ℕ → ℕ → Client → Type 0
  Covers rounds timeout started_at c =
      (started_at ≤ c.now) × (timeout ≤ (c.now - started_at) + rounds * poll_interval)

  look_failed-settled :
      (d : Bool) (e : Exception) (c : Client)
      → is_python e ≡ true
      → is_settled (look_failed d e c).0 ≡ true
  unfolding look_failed ◌>>=◌
  look_failed-settled d (modem modem_not_found message) c p = refl
  look_failed-settled d (modem modem_error message) c p = refl
  look_failed-settled d (modem _ message) c p = refl
  look_failed-settled d out_of_fuel c p = cc
  look_failed-settled d queue_error c p = refl
  look_failed-settled d e c p = refl

  look-settled : (path : String) (d : Bool) (c : Client) → is_settled (look path d c).0 ≡ true
  unfolding look
  look-settled path d c =
      catch-settled _ (look_failed d) c
        ((Runs-looked (Since-Stable c.now) (add_watcher-Since c.now) path d).fuelled c
          (omega arith))
        (λ e c' p. look_failed-settled d e c' p)

  after_look-settled :
      (rounds timeout started_at : ℕ) (again : Bool → Exec Client Unit) (seen : Look) (c : Client)
      → ((d : Bool) (c' : Client)
          → Covers rounds timeout started_at c'
          → is_settled (again d c').0 ≡ true)
      → Covers (suc rounds) timeout started_at c
      → is_settled (after_look timeout started_at again seen c).0 ≡ true
  unfolding after_look pause sleep ◌>>=◌
  after_look-settled rounds timeout started_at again reappeared c h k = refl
  after_look-settled rounds timeout started_at again (waits d) c h k =
      elim (Bool-cases (leb timeout (c.now - started_at))) [
        | inl b ↦ simp b
        | inr b ↦ simp b (h d _ (ground arith))
      ]

  seen-settled :
      (rounds timeout started_at : ℕ) (again : Bool → Exec Client Unit) (r : Result Look)
      (c c' : Client)
      → ((d : Bool) (c' : Client)
          → Covers rounds timeout started_at c'
          → is_settled (again d c').0 ≡ true)
      → Covers (suc rounds) timeout started_at c
      → is_settled r ≡ true
      → c.now ≤ c'.now
      → is_settled (continue r (after_look timeout started_at again) c').0 ≡ true
  seen-settled rounds timeout started_at again (ok seen) c c' h k p n =
      after_look-settled rounds timeout started_at again seen c' h (omega (arith, n))
  seen-settled rounds timeout started_at again (raised e) c c' h k p n = p

  wait_from-settled :
      (rounds timeout started_at : ℕ) (path : String) (d : Bool) (c : Client)
      → Covers rounds timeout started_at c
      → is_settled (wait_from (suc rounds) timeout started_at path d c).0 ≡ true
  unfolding wait_from ◌>>=◌
  wait_from-settled zero timeout started_at path d c k =
      elim (Bool-cases (ltb (c.now - started_at) timeout)) [
        | inl b ↦ absurd (ground (arith, b))
        | inr b ↦ simp b
      ]
  wait_from-settled (suc rounds) timeout started_at path d c k =
      elim (Bool-cases (ltb (c.now - started_at) timeout)) [
        | inl b ↦
            let looks = Runs-look (Since-Stable c.now) (add_watcher-Since c.now) path d in
            simp b (
              seen-settled rounds timeout started_at _ (look path d c).0 c (look path d c).1
                (wait_from-settled rounds timeout started_at path) k (look-settled path d c)
                (looks.keeps c (omega arith)))
        | inr b ↦ simp b
      ]

  -- The wait for a modem that was reset ends within its rounds, whatever D-Bus answers and however
  -- long that takes: it returns, or raises an exception that is no ModemError.
  pub wait_for_reset_reappear-settled :
      (timeout : ℕ) (path : String) (c : Client)
      → is_settled (wait_for_reset_reappear timeout path c).0 ≡ true
  unfolding wait_for_reset_reappear ◌>>=◌
  wait_for_reset_reappear-settled timeout path c =
      wait_from-settled (suc (timeout / poll_interval)) timeout c.now path false c
        (omega arith, omega arith)

  pub wait_for_reset_reappear-fuelled :
      (timeout : ℕ) (path : String) (c : Client)
      → is_fuelled (wait_for_reset_reappear timeout path c).0 ≡ true
  wait_for_reset_reappear-fuelled timeout path c =
      settled-fuelled _ (wait_for_reset_reappear-settled timeout path c)
