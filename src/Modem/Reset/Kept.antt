-- ===== src/Modem/Reset/Kept.antt =====
-- modem/client.py: what a reset and the wait after it preserve.
use sms_gateway_v.Base.{ℕ, zero, suc, ◌+◌, ◌/◌, refl, String, Bool, true, false, none}
use sms_gateway_v.Exec.{Exec, out_of_fuel}
use sms_gateway_v.Exec.Keeps.{Keeps, Keeps-bind, Keeps-if, Keeps-gets, Keeps-raise, Keeps-pure}
use sms_gateway_v.Exec.Runs.{Runs, Runs-bind, Runs-if, Runs-gets, Runs-pure}
use sms_gateway_v.Modem.Bus.{Bus}
use sms_gateway_v.Modem.Client.{Client, unsubscribe_all_added_watchers}
use sms_gateway_v.Modem.Client.Kept.{Runs-call, Runs-require_resubscribe}
use sms_gateway_v.Modem.Watchers.Kept.{StableLink}
use sms_gateway_v.Modem.Control.Kept.{Runs-get_modem_interfaces}
use sms_gateway_v.Modem.Reset.{
  Look, poll_interval, reappeared, waits, sleep, pause, after_look, wait_from,
  wait_for_reset_reappear, reset,
}
use sms_gateway_v.Modem.Reset.Looks.{Runs-look, Runs-set_modem_path}
use sms_gateway_v.Modem.Reset.Terminates.{wait_for_reset_reappear-fuelled}

module _ ⦃bus : Bus⦄ {I : Client → Type 0} (l : StableLink I)
    (passed : (c : Client) (n t : ℕ) → I c → I (record c { calls = n; now = c.now + t })) where
  sleep-kept : (delay : ℕ) → Keeps I (sleep delay)
  unfolding sleep
  sleep-kept delay = record { at = λ c i. passed c _ _ i }

  pause-kept : (timeout started_at : ℕ) → Keeps I (pause timeout started_at)
  unfolding pause
  pause-kept timeout started_at = Keeps-bind _ _ (Keeps-gets _) (λ elapsed.
      Keeps-if _ _ _ (Keeps-pure false) (Keeps-bind _ _ (sleep-kept _) (λ a. Keeps-pure true)))

  after_look-kept :
      (timeout started_at : ℕ) (again : Bool → Exec Client Unit) (seen : Look)
      → ((d : Bool) → Keeps I (again d))
      → Keeps I (after_look timeout started_at again seen)
  unfolding after_look
  after_look-kept timeout started_at again reappeared k = Keeps-pure tt
  after_look-kept timeout started_at again (waits d) k =
      Keeps-bind _ _ (pause-kept timeout started_at) (λ b. Keeps-if b _ _ (k d) (Keeps-pure tt))

  wait_from-kept :
      (fuel timeout started_at : ℕ) (path : String) (d : Bool)
      → Keeps I (wait_from fuel timeout started_at path d)
  unfolding wait_from
  wait_from-kept zero timeout started_at path d = Keeps-raise out_of_fuel
  wait_from-kept (suc fuel) timeout started_at path d = Keeps-bind _ _ (Keeps-gets _) (λ in_time.
      Keeps-if in_time _ _
        (Keeps-bind _ _ (record { at = (Runs-look l.stable l.added path d).keeps })
          (λ seen.
            after_look-kept timeout started_at _ seen
              (wait_from-kept fuel timeout started_at path)))
        (Keeps-pure tt))

  wait-kept : (timeout : ℕ) (path : String) → Keeps I (wait_for_reset_reappear timeout path)
  unfolding wait_for_reset_reappear
  wait-kept timeout path = Keeps-bind _ _ (Keeps-gets _) (λ started_at.
      wait_from-kept (suc (suc (timeout / poll_interval))) timeout started_at path false)

  pub Runs-reset : (timeout : ℕ) → Runs I (reset timeout)
  unfolding reset
  Runs-reset timeout = Runs-bind _ _ (Runs-get_modem_interfaces l.stable l.added _) (λ path.
      Runs-bind _ _ (Runs-call l.stable _ _ (λ fault cause. refl)) (λ a.
        Runs-bind _ _ (Runs-set_modem_path l.stable l.added none) (λ b.
          Runs-bind unsubscribe_all_added_watchers _ l.stable.unsubscribed (λ d.
            Runs-bind _ _ (Runs-require_resubscribe l.stable) (λ e.
              Runs-bind _ _ (Runs-gets _) (λ required.
                Runs-if required _ _
                  (record {
                    keeps = (wait-kept timeout path).at;
                    fuelled = λ c i. wait_for_reset_reappear-fuelled timeout path c;
                  })
                  (Runs-pure tt)))))))
