-- ===== src/Telegram/Client/Backoff.antt =====
-- telegram/client.py: how long the client waits.
use sms_gateway_v.Base.{
  ℕ, ap, subst, ◌∙◌, sym, zero, suc, ◌+◌, ◌-◌, ◌*◌, ◌^◌, ◌≤◌, ◌<◌, ◌≡◌, refl, min, arith, le→leb,
  lt→not-leb,
}
use sms_gateway_v.Exec.{ok, raised, overflow_error}
use native.Mathlib.Nat.{two-pow-succ}
use sms_gateway_v.Telegram.Client.{
  Body, not_an_object, object, unusable, milliseconds, retry_after, retry_delay,
}

pred_suc : (n : ℕ) → suc n - 1 ≡ n
pred_suc n = omega (arith)

double : (n : ℕ) → 2 ^ suc n ≡ 2 ^ n + 2 ^ n
double n = two-pow-succ n

next : (n : ℕ) → 2 ^ (suc (suc n) - 1) ≡ 2 ^ (suc n - 1) + 2 ^ (suc n - 1)
next n = ap (λ m. 2 ^ m) (pred_suc (suc n)) ∙ double n ∙ sym (ap (λ m. 2 ^ m + 2 ^ m) (pred_suc n))

positive : (n : ℕ) → 1 ≤ 2 ^ n
positive zero = omega (arith)
positive (suc n) = omega (arith, double n, positive n)

asked : (body : Body) → 1 ≤ retry_after body
unfolding retry_after
asked not_an_object = omega (arith)
asked (object is_ok unusable) = omega (arith)
asked (object is_ok (milliseconds ms)) = ground (arith)

doubled :
    (p q : ℕ)
    → 1 ≤ p
    → q ≡ p + p
    → (1000 ≤ min (1000 * p) 30_000)
      × (min (1000 * p) 30_000 ≤ 30_000)
      × (min (1000 * p) 30_000 ≤ min (1000 * q) 30_000)
doubled p q h e = ground (arith)

-- The milliseconds before a retry of a transport error after an attempt.
abbrev pub doubled_delay : ℕ → ℕ
doubled_delay attempt = min (1000 * 2 ^ (attempt - 1)) 30_000

pub retry_delay-doubled_delay :
    (attempt : ℕ) → attempt ≤ 1024 → retry_delay attempt ≡ ok (doubled_delay attempt)
unfolding retry_delay
retry_delay-doubled_delay attempt h = rw (lt→not-leb 1024 (attempt - 1) (omega (arith, h))) refl

retry_delay-overflow : (attempt : ℕ) → 1024 < attempt → retry_delay attempt ≡ raised overflow_error
unfolding retry_delay
retry_delay-overflow attempt h = rw (le→leb 1024 (attempt - 1) (omega (arith, h))) refl

retry_delay-ok : (attempt e : ℕ) → retry_delay attempt ≡ ok e → e ≡ doubled_delay attempt
unfolding retry_delay
retry_delay-ok attempt e h = ground arith

-- The delay before a retry of a transport error, after an attempt counted from one: up to attempt
-- 1024 it is a value from one second to thirty, and never shorter after a later attempt; from
-- attempt 1025 on there is none and an OverflowError is raised. The delay that Telegram asks for is
-- positive whatever the body of its reply is.
pub retry_delay-bounds :
    (attempt : ℕ) (body : Body)
    → 1 ≤ attempt
    → (attempt ≤ 1024
        → (d : ℕ) × (retry_delay attempt ≡ ok d)
          × (1000 ≤ d)
          × (d ≤ 30_000)
          × ((e : ℕ) → retry_delay (suc attempt) ≡ ok e → d ≤ e))
      × (1024 < attempt → retry_delay attempt ≡ raised overflow_error)
      × (1 ≤ retry_after body)
retry_delay-bounds zero body h = absurd (omega (arith, h))
retry_delay-bounds (suc n) body h = (in_time, too_late, asked body)
  where
    bounds :
        (1000 ≤ doubled_delay (suc n))
        × (doubled_delay (suc n) ≤ 30_000)
        × (doubled_delay (suc n) ≤ doubled_delay (suc (suc n)))
    bounds = doubled (2 ^ (suc n - 1)) (2 ^ (suc (suc n) - 1)) (positive (suc n - 1)) (next n)

    in_time :
        suc n ≤ 1024
        → (d : ℕ) × (retry_delay (suc n) ≡ ok d)
          × (1000 ≤ d)
          × (d ≤ 30_000)
          × ((e : ℕ) → retry_delay (suc (suc n)) ≡ ok e → d ≤ e)
    in_time l = (
      doubled_delay (suc n),
      retry_delay-doubled_delay (suc n) l,
      bounds.0,
      bounds.1,
      λ e h.
          subst (λ x. doubled_delay (suc n) ≤ x) (sym (retry_delay-ok (suc (suc n)) e h)) bounds.2,
    )

    too_late : 1024 < suc n → retry_delay (suc n) ≡ raised overflow_error
    too_late l = retry_delay-overflow (suc n) l
