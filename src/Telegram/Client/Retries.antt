-- ===== src/Telegram/Client/Retries.antt =====
-- telegram/client.py: what `send_message` posts, how long it waits, and what it makes of the
-- replies.
use sms_gateway_v.Base.{
  ℕ, zero, suc, ◌+◌, ◌-◌, ◌*◌, ◌^◌, min, ◌≤◌, ◌≡◌, refl, sym, ◌∙◌, ap, subst, Bool, true, false,
  not, none, some, if◌then◌else◌, List, [], ◌∷◌, ◌++◌, arith, length, le→leb, lt→not-leb,
}
use sms_gateway_v.Exec.{Exec, Exception, rate_limited, transport_error, Result, ok, raised, ◌>>=◌}
use sms_gateway_v.Telegram.Message.{TelegramMessage}
use sms_gateway_v.Telegram.Client.{
  Client, Post, Reply, next_reply, later_replies, sleep, retry_or_raise, retry_after_delay, post_of,
  flag, post, settle, send_from, send_message, client_or_raise,
}
use sms_gateway_v.Telegram.Client.Answers.{Answer, received-Answer}
use sms_gateway_v.Telegram.Client.Backoff.{doubled_delay, retry_delay-doubled_delay}

abbrev pub is_retryable : Exception → Bool
is_retryable (rate_limited delay) = true
is_retryable transport_error = true
is_retryable _ = false

abbrev pub is_final : Result (Unit {0}) → Bool
is_final (ok _) = true
is_final (raised e) = not (is_retryable e)

-- How long is waited after an attempt that has raised: as the rate limit asks, or a second, doubled
-- at each attempt, up to thirty.
abbrev pub Waits : ℕ → Exception → ℕ → Type 0
Waits attempt (rate_limited delay) ms = ms ≡ delay
Waits attempt transport_error ms = ms ≡ min (1000 * 2 ^ (attempt - 1)) 30_000
Waits attempt _ ms = ⊥

-- What the replies come to from an attempt on, with `n` retries allowed: the pauses of the retries
-- made, and the result.
pub data Outcome : ℕ → ℕ → List Reply → List ℕ → Result (Unit {0}) → Type 0 where
  settled :
      {n attempt : ℕ} {rs : List Reply} {r : Result (Unit {0})}
      → Answer (next_reply rs) r
      → is_final r ≡ true
      → Outcome n attempt rs [] r
  exhausted :
      {n attempt : ℕ} {rs : List Reply} {r : Result (Unit {0})}
      → n ≡ 0
      → Answer (next_reply rs) r
      → is_final r ≡ false
      → Outcome n attempt rs [] r
  retried :
      {n attempt ms : ℕ} {mss : List ℕ} {rs : List Reply} {e : Exception} {r : Result (Unit {0})}
      → Answer (next_reply rs) (raised e)
      → Waits attempt e ms
      → Outcome n (suc attempt) (later_replies rs) mss r
      → Outcome (suc n) attempt rs (ms ∷ mss) r

-- what is posted of a message
abbrev pub payload : TelegramMessage → Post
payload m = record {
  chat_id = m.chat_id;
  text = m.text;
  parse_mode = m.parse_mode;
  disable_notification = if m.disable_notification then some true else none;
}

pub copies : ℕ → Post → List Post
copies zero p = []
copies (suc n) p = p ∷ copies n p

-- The run of a message from a client `b`, from an attempt on: the outcome of the replies, a post of
-- the message for each round, and the pauses between two.
pub record Ran (m : TelegramMessage) (n attempt : ℕ) (rs : List Reply) (b : Client)
    (run : Result (Unit {0}) × Client) : Type 0 where
  pub pauses : List ℕ
  pub few : length pauses ≤ n
  pub outcome : Outcome n attempt rs pauses run.0
  pub posted : run.1.posts ≡ b.posts ++ copies (suc (length pauses)) (payload m)
  pub paused : run.1.sleeps ≡ b.sleeps ++ pauses

append_nil : {A : Type 0} (xs : List A) → xs ++ [] ≡ xs
append_nil [] = refl
append_nil (x ∷ xs) = ap (λ ys. x ∷ ys) (append_nil xs)

append_assoc : {A : Type 0} (xs ys zs : List A) → (xs ++ ys) ++ zs ≡ xs ++ (ys ++ zs)
append_assoc [] ys zs = refl
append_assoc (x ∷ xs) ys zs = ap (λ ws. x ∷ ws) (append_assoc xs ys zs)

payload-post_of : (m : TelegramMessage) → post_of m ≡ payload m
unfolding post_of
payload-post_of m =
    ap
      (λ f. record {
        chat_id = m.chat_id;
        text = m.text;
        parse_mode = m.parse_mode;
        disable_notification = f;
      })
      (flags m.disable_notification)
  where
    flags : (b : Bool) → flag b ≡ (if b then some true else none)
    flags true = refl
    flags false = refl

-- What `rest`, the rest of the loop, does from the clients that a pause in `c` leads to.
abbrev Next : TelegramMessage → ℕ → ℕ → Client → Exec Client Unit → Type 0
Next m n attempt c rest =
    (d : Client)
    → d.max_retries ≡ c.max_retries
    → d.incoming ≡ c.incoming
    → Ran m n attempt c.incoming d (rest d)

module _ (m : TelegramMessage) (b c : Client) (rest : Exec Client Unit)
    (posted : c.posts ≡ b.posts ++ copies 1 (payload m)) (quiet : c.sleeps ≡ b.sleeps)
    (rs : List Reply) (later : later_replies rs ≡ c.incoming) where
  ends-Ran :
      (n attempt : ℕ) (r : Result (Unit {0}))
      → Outcome n attempt rs [] r
      → Ran m n attempt rs b (r, c)
  unfolding copies
  ends-Ran n attempt r o = record {
    pauses = [];
    few = omega arith;
    outcome = o;
    posted = posted;
    paused = quiet ∙ sym (append_nil b.sleeps);
  }

  again-Ran :
      (n attempt ms : ℕ) (e : Exception)
      → Answer (next_reply rs) (raised e)
      → Waits attempt e ms
      → Next m n (suc attempt) c rest
      → Ran m (suc n) attempt rs b (rest (record c { sleeps = c.sleeps ++ ms ∷ [] }))
  unfolding copies
  again-Ran n attempt ms e h w next =
      let ran = next (record c { sleeps = c.sleeps ++ ms ∷ [] }) refl refl in
      record {
        pauses = ms ∷ ran.pauses;
        few = omega (arith, ran.few);
        outcome = retried h w (rw later ran.outcome);
        posted =
            ran.posted
            ∙ ap (λ xs. xs ++ copies (suc (length ran.pauses)) (payload m)) posted
            ∙ append_assoc b.posts _ _;
        paused = ran.paused ∙ append_assoc c.sleeps _ _ ∙ ap (λ xs. xs ++ (ms ∷ ran.pauses)) quiet;
      }

  retry-Ran :
      (n attempt ms : ℕ) (e : Exception)
      → Answer (next_reply rs) (raised e)
      → is_retryable e ≡ true
      → Waits attempt e ms
      → attempt + n ≡ c.max_retries
      → ((k : ℕ) → n ≡ suc k → Next m k (suc attempt) c rest)
      → Ran m n attempt rs b ((retry_or_raise e attempt ms >>= λ _. rest) c)
  unfolding retry_or_raise sleep ◌>>=◌
  retry-Ran zero attempt ms e h t w l next =
      rw (le→leb c.max_retries attempt (omega arith), retry_or_raise)
        (ends-Ran 0 attempt (raised e) (exhausted refl h (rw t)))
  retry-Ran (suc k) attempt ms e h t w l next =
      rw (lt→not-leb c.max_retries attempt (omega arith), retry_or_raise)
        (again-Ran k attempt ms e h w (next k refl))

  settle-Ran :
      (n attempt : ℕ) (r : Result (Unit {0}))
      → Answer (next_reply rs) r
      → attempt + n ≡ c.max_retries
      → attempt ≤ 1024
      → ((k : ℕ) → n ≡ suc k → Next m k (suc attempt) c rest)
      → Ran m n attempt rs b (settle attempt rest r c)
  unfolding settle retry_after_delay ◌>>=◌
  settle-Ran n attempt (ok _) h l early next = ends-Ran n attempt _ (settled h refl)
  settle-Ran n attempt (raised (rate_limited delay)) h l early next =
      retry-Ran n attempt delay _ h refl refl l next
  settle-Ran n attempt (raised transport_error) h l early next =
      rw (retry_delay-doubled_delay attempt early)
        (retry-Ran n attempt (doubled_delay attempt) _ h refl refl l next)
  settle-Ran n attempt (raised _) h l early next = ends-Ran n attempt _ (settled h refl)

send_from-Ran :
    (n attempt : ℕ) (m : TelegramMessage) (c : Client)
    → attempt + n ≡ c.max_retries
    → attempt + n ≤ 1024
    → Ran m n attempt c.incoming c (send_from (suc n) attempt m c)
unfolding send_from post copies
send_from-Ran zero attempt m c l early =
    settle-Ran m c _ _ (ap (λ p. c.posts ++ p ∷ []) (payload-post_of m)) refl c.incoming refl 0
      attempt _ (received-Answer (next_reply c.incoming)) l (omega arith)
      (λ k e. absurd (omega arith))
send_from-Ran (suc n) attempt m c l early =
    settle-Ran m c _ _ (ap (λ p. c.posts ++ p ∷ []) (payload-post_of m)) refl c.incoming refl
      (suc n) attempt _ (received-Answer (next_reply c.incoming)) l (omega arith)
      λ k e d same left.
        let e' : k ≡ n = omega arith in
        rw (e', ← left) (send_from-Ran n (suc attempt) m d (omega arith) (omega arith))

send_message-open :
    (m : TelegramMessage) (c : Client)
    → c.is_open ≡ true
    → send_message m c ≡ send_from c.max_retries 1 m c
unfolding send_message client_or_raise ◌>>=◌
send_message-open m c o = ground arith

-- An open client whose limit is n + 1, at most 1024, posts the message at most n + 1 times: it
-- retries while the reply is a rate limit, a failure of the network, a status 200 whose body
-- is no JSON object or a status from 500 on and retries are left, and ends with the first other reply, or with the
-- last error when no retry is left. Each post is the payload of the message. Between two it waits
-- as long as the rate limit asks, else a second, doubled at each attempt, up to thirty seconds. It
-- returns normally only after a status 200 whose body says ok.
pub send_message-Ran :
    (n : ℕ) (m : TelegramMessage) (c : Client)
    → c.is_open ≡ true
    → c.max_retries ≡ suc n
    → suc n ≤ 1024
    → Ran m n 1 c.incoming c (send_message m c)
send_message-Ran n m c o l early = rw (send_message-open m c o) (
    subst (λ k. Ran m n 1 c.incoming c (send_from k 1 m c)) (sym l)
      (send_from-Ran n 1 m c (omega arith) (omega arith)))
