-- ===== src/Modem/Messages/Sorted.antt =====
-- modem/client.py: the paths that `list_sms_paths` returns.
use sms_gateway_v.Base.{ℕ, String, ◌≡◌, Bool, List}
use sms_gateway_v.Exec.Gives.{Gives, Returns, Gives-bind, Gives-any, Gives-pure}
use sms_gateway_v.Modem.Paths.Sorted.{
  InPathOrder, count_paths, sort_paths-InPathOrder, sort_paths-count,
}
use sms_gateway_v.Modem.Bus.{Bus, Reply, answered}
use sms_gateway_v.Modem.Client.{Client}
use sms_gateway_v.Modem.Client.Kept.{call-answered}
use sms_gateway_v.Modem.Control.{read_required}
use sms_gateway_v.Modem.Messages.{list_sms_paths}

module _ ⦃bus : Bus⦄ where
  -- `paths` are the `Messages` that the bus has answered, in the order of their keys.
  abbrev pub IsSortedAnswer : List String → Client → Type 0
  IsSortedAnswer paths c =
      (calls : ℕ) × (modem_path : String) × (answer : List String) × (bus.messages calls modem_path
        ≡ answered answer)
      × InPathOrder paths
      × ((test : String → Bool) → count_paths test paths ≡ count_paths test answer)

  read_required-answered :
      {A : Type 0} {P : Client → Type 0} (name : String) (answer : ℕ → Reply A)
      → Gives P (λ a c. (n : ℕ) × (answer n ≡ answered a)) (read_required name answer)
  unfolding read_required
  read_required-answered name answer = call-answered _ answer

  list-IsSortedAnswer : {P : Client → Type 0} → Gives P IsSortedAnswer list_sms_paths
  unfolding list_sms_paths
  list-IsSortedAnswer = Gives-bind _ Gives-any (λ p. Gives-bind _ Gives-any (λ modem_path.
      Gives-bind _ (read_required-answered "Messages" (λ n. bus.messages n modem_path)) (λ answer.
        Gives-pure _ (λ c a. (
          a.0,
          modem_path,
          answer,
          a.1,
          sort_paths-InPathOrder answer,
          λ test. sort_paths-count test answer,
        )))))

  -- Where `list_sms_paths` returns, its paths are in the order of their keys, and are the paths that
  -- the bus answered for `Messages`: whatever the test, as many satisfy it.
  pub list_sms_paths-sorted :
      (c : Client) → Returns IsSortedAnswer (list_sms_paths c).0 (list_sms_paths c).1
  list_sms_paths-sorted c = (list-IsSortedAnswer {P = λ d. Unit}).at c tt
