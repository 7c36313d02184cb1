-- ===== src/Telegram/Client/Answers.antt =====
-- telegram/client.py: what the replies of the Bot API mean, as its documentation has it.
use sms_gateway_v.Base.{
  ℕ, zero, suc, ◌≤◌, ◌<◌, ◌≡◌, ◌≢◌, refl, true, false, arith, nat_eq, leb, Bool-cases, inl, inr,
}
use sms_gateway_v.Exec.{
  Result, ok, raised, telegram_error, auth_error, transport_error, rate_limited,
}
use sms_gateway_v.Telegram.Client.{
  Body, RetryAfter, not_an_object, object, unusable, milliseconds, Reply, unreachable, response,
  received, handle_response, ok_body, retry_after,
}

-- The delay that a body asks for: the positive number that it names, or a second.
abbrev pub wanted : Body → ℕ
wanted (object is_ok (milliseconds (suc ms))) = suc ms
wanted _ = 1000

pub data Answer : Reply → Result (Unit {0}) → Type 0 where
  gone : Answer unreachable (raised transport_error)
  accepted : {s : ℕ} {t : RetryAfter} → s ≡ 200 → Answer (response s (object true t)) (ok tt)
  refused :
      {s : ℕ} {t : RetryAfter}
      → s ≡ 200
      → Answer (response s (object false t)) (raised telegram_error)
  unread : {s : ℕ} → s ≡ 200 → Answer (response s not_an_object) (raised transport_error)
  unauthorized : {s : ℕ} {b : Body} → s ≡ 401 → Answer (response s b) (raised auth_error)
  limited : {s : ℕ} {b : Body} → s ≡ 429 → Answer (response s b) (raised (rate_limited (wanted b)))
  down : {s : ℕ} {b : Body} → 500 ≤ s → Answer (response s b) (raised transport_error)
  other :
      {s : ℕ} {b : Body}
      → s ≢ 200
      → s ≢ 401
      → s ≢ 429
      → s < 500
      → Answer (response s b) (raised telegram_error)

retry_after-wanted : (b : Body) → retry_after b ≡ wanted b
unfolding retry_after
retry_after-wanted not_an_object = refl
retry_after-wanted (object is_ok unusable) = refl
retry_after-wanted (object is_ok (milliseconds zero)) = refl
retry_after-wanted (object is_ok (milliseconds (suc ms))) = ground arith

nat_eq→≡ : (a b : ℕ) → nat_eq a b ≡ true → a ≡ b
nat_eq→≡ a b e = ground arith

nat_eq→≢ : (a b : ℕ) → nat_eq a b ≡ false → a ≢ b
nat_eq→≢ a b e h = ground arith

leb→lt : (a b : ℕ) → leb a b ≡ false → b < a
leb→lt a b e = ground arith

leb→≤ : (a b : ℕ) → leb a b ≡ true → a ≤ b
leb→≤ a b e = ground arith

body-Answer : (s : ℕ) (b : Body) → s ≡ 200 → Answer (response s b) (ok_body b)
unfolding ok_body
body-Answer s not_an_object e = unread e
body-Answer s (object true t) e = accepted e
body-Answer s (object false t) e = refused e

status-Answer : (s : ℕ) (b : Body) → Answer (response s b) (handle_response s b)
unfolding handle_response
status-Answer s b = elim (Bool-cases (nat_eq s 200)) [
  | inl e ↦ rw e (body-Answer s b (nat_eq→≡ s 200 e))
  | inr n ↦ elim (Bool-cases (nat_eq s 401)) [
    | inl e ↦ rw (n, e) (unauthorized (nat_eq→≡ s 401 e))
    | inr m ↦ elim (Bool-cases (nat_eq s 429)) [
      | inl e ↦ rw (n, m, e, retry_after-wanted b) (limited (nat_eq→≡ s 429 e))
      | inr l ↦ elim (Bool-cases (leb 500 s)) [
        | inl e ↦ rw (n, m, l, e) (down (leb→≤ 500 s e))
        | inr e ↦
            rw (n, m, l, e)
              (other (nat_eq→≢ s 200 n) (nat_eq→≢ s 401 m) (nat_eq→≢ s 429 l) (leb→lt 500 s e))
      ]
    ]
  ]
]

-- What the client makes of a reply is what it means.
pub received-Answer : (r : Reply) → Answer r (received r)
unfolding received
received-Answer unreachable = gone
received-Answer (response s b) = status-Answer s b
