-- ===== src/Modem/Client/Clock.antt =====
-- modem/client.py: the time does not go back while the client waits for D-Bus.
use sms_gateway_v.Base.{ℕ, refl, ◌≤◌, List, [], ◌∷◌, arith}
use sms_gateway_v.Exec.{Fault, unexpected}
use sms_gateway_v.Exec.Runs.{
  Runs, Runs-bind, Runs-if, Runs-gets, Runs-raise, Runs-pure, Runs-modify,
}
use sms_gateway_v.Modem.Bus.{Bus, Reply, answered, failed}
use sms_gateway_v.Modem.Keys.{WatchKey}
use sms_gateway_v.Modem.Client.{
  Client, after_call, silence_added, off_added, unsubscribe_added_watcher, unsubscribe_each,
  unsubscribe_all_added_watchers,
}
use sms_gateway_v.Modem.Client.Kept.{Stable}

-- no earlier than a time
abbrev pub Since : ℕ → Client → Type 0
Since t c = t ≤ c.now

module _ ⦃bus : Bus⦄ (t : ℕ) where
  silence_added-Since : (k : WatchKey) (r : Reply Unit) → Runs (Since t) (silence_added k r)
  unfolding silence_added
  silence_added-Since k (answered a) = Runs-modify _ (λ c i. i)
  silence_added-Since k (failed Fault.foreign cause) = Runs-raise unexpected refl
  silence_added-Since k (failed fault cause) = Runs-pure tt

  off_added-Since : (k : WatchKey) → Runs (Since t) (off_added k)
  unfolding off_added
  off_added-Since k = record {
    keeps = λ c i.
        (silence_added-Since k (bus.off_added c.calls k.0)).keeps (after_call c) (omega (arith, i));
    fuelled = λ c i.
        (silence_added-Since k (bus.off_added c.calls k.0)).fuelled (after_call c)
          (omega (arith, i));
  }

  unwatch-Since : (k : WatchKey) → Runs (Since t) (unsubscribe_added_watcher k)
  unfolding unsubscribe_added_watcher
  unwatch-Since k = Runs-bind _ _ (Runs-modify _ (λ c i. i)) (λ a.
      Runs-bind _ _ (Runs-gets _) (λ has_info.
        Runs-bind _ _ (Runs-modify _ (λ c i. i))
          (λ b. Runs-if has_info _ _ (off_added-Since k) (Runs-pure tt))))

  unwatch_each-Since : (ks : List WatchKey) → Runs (Since t) (unsubscribe_each ks)
  unfolding unsubscribe_each
  unwatch_each-Since [] = Runs-pure tt
  unwatch_each-Since (k ∷ ks) = Runs-bind _ _ (unwatch-Since k) (λ a. unwatch_each-Since ks)

  unwatch_all-Since : Runs (Since t) unsubscribe_all_added_watchers
  unfolding unsubscribe_all_added_watchers
  unwatch_all-Since =
      Runs-bind _ _ (Runs-gets _)
        (λ ks. Runs-bind _ _ (unwatch_each-Since ks) (λ a. Runs-modify _ (λ c i. i)))

  pub Since-Stable : Stable (Since t)
  Since-Stable = record {
    called = λ c i. omega (arith, i);
    found = λ c path i. i;
    required = λ c b i. i;
    unsubscribed = unwatch_all-Since;
  }
