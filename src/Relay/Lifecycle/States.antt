-- ===== src/Relay/Lifecycle/States.antt =====
-- relay/relay.py: where `start` and `stop` leave the relay, whatever fails in them.
use sms_gateway_v.Base.{
  ℕ, String, ◌≡◌, refl, Bool, true, false, Option, none, some, [], if◌then◌else◌, arith, ◌∙◌, sym,
  subst,
}
use sms_gateway_v.Exec.{
  Exec, Exception, relay_error, Result, ok, raised, raise, continue, handle_with, ◌>>=◌,
}
use sms_gateway_v.Exec.Inversion.{bind-ok}
use sms_gateway_v.Queue.Models.{IncomingSms, Codec, Hashing}
use sms_gateway_v.Queue.Dedup
use sms_gateway_v.Queue.State.{on_dedup}
use sms_gateway_v.Queue.Recovery
use sms_gateway_v.Worker
use sms_gateway_v.Relay.State.{
  RelayStatus, stopped, starting, running, stopping, Relay, Modem, on_queue, on_worker, answer,
}
use sms_gateway_v.Relay.Lifecycle.{
  is_stopped, is_idle, keep_first, set_status, cancel_pending_text_retries, suppressed, disconnect,
  when, rollback_startup_failure, rolling_back, run_worker, begin, start_stopped, start, note_error,
  disconnect_and_close, raise_error, stop_running, stop,
}

-- the exception, if there is one
abbrev pub noted_error : Result (Unit {0}) → Option Exception → Option Exception
noted_error (ok _) before = before
noted_error (raised e) before = some e

module _ {Text : Type 0} where
  -- A stop of a relay that is running or starting leaves it stopped, with its queue and store
  -- closed, no worker task and no pending retry, even if the modem does not disconnect; then it
  -- raises what the disconnection raised and keeps it as the last error. Otherwise it returns and
  -- the last error is the one before.
  pub stop-stopped :
      (phone : Modem) (s : Relay Text)
      → is_idle s.status ≡ false
      → ((stop phone s).0 ≡ phone.disconnect)
        × ((stop phone s).1.last_error ≡ noted_error phone.disconnect s.last_error)
        × ((stop phone s).1.status ≡ stopped)
        × ((stop phone s).1.worker_task ≡ false)
        × ((stop phone s).1.started_at ≡ none)
        × ((stop phone s).1.pending_text_retries ≡ [])
        × ((stop phone s).1.worker.stop_event ≡ true)
        × ((stop phone s).1.worker.queue.initialized ≡ false)
        × ((stop phone s).1.worker.queue.dedup.connected ≡ false)
  unfolding stop stop_running set_status cancel_pending_text_retries disconnect_and_close
      raise_error on_worker disconnect note_error keep_first on_queue Recovery.close Dedup.close
      on_dedup answer Worker.stop is_idle ◌>>=◌
  stop-stopped phone s i = ground arith

  -- What a failed start leaves: the relay is stopped, with the exception as its last error.
  pub record IsRolledBack (e : Exception) (s : Relay Text) : Type 0 where
    pub status : s.status ≡ stopped
    pub worker_task : s.worker_task ≡ false
    pub started_at : s.started_at ≡ none
    pub last_error : s.last_error ≡ some e
    pub pending_text_retries : s.pending_text_retries ≡ []

  rollback-fields :
      (phone : Modem) (e : Exception) (connected queue_initialized : Bool) (s : Relay Text)
      → ((rollback_startup_failure phone e connected queue_initialized s).0 ≡ ok tt)
        × ((rollback_startup_failure phone e connected queue_initialized s).1.status ≡ stopped)
        × ((rollback_startup_failure phone e connected queue_initialized s).1.worker_task ≡ false)
        × ((rollback_startup_failure phone e connected queue_initialized s).1.started_at ≡ none)
        × ((rollback_startup_failure phone e connected queue_initialized s).1.last_error ≡ some e)
        × ((rollback_startup_failure phone e connected queue_initialized s).1.pending_text_retries
            ≡ [])
  unfolding rollback_startup_failure cancel_pending_text_retries suppressed disconnect when on_queue
      answer Recovery.close Dedup.close on_dedup ◌>>=◌
  rollback-fields phone e connected queue_initialized s = ground arith

  -- the run of a step that is rolled back when it fails
  abbrev pub Rolled : {A : Type 0} → Result A × Relay Text → Type 0
  Rolled (ok a, s) = Unit {0}
  Rolled (raised e, s) = IsRolledBack e s

  rollback-raise :
      {A : Type 0} (phone : Modem) (e : Exception) (connected queue_initialized : Bool)
      (s : Relay Text)
      → (rollback_startup_failure phone e connected queue_initialized >>= λ _. raise {A = A} e) s
        ≡ (raised e, (rollback_startup_failure phone e connected queue_initialized s).1)
  unfolding ◌>>=◌
  rollback-raise phone e connected queue_initialized s =
      simp ((rollback-fields phone e connected queue_initialized s).0)

  rolling_back-Rolled :
      {A : Type 0} (phone : Modem) (connected queue_initialized : Bool) (m : Exec (Relay Text) A)
      (s : Relay Text)
      → Rolled (rolling_back phone connected queue_initialized m s)
  unfolding rolling_back ◌>>=◌
  rolling_back-Rolled {A} phone connected queue_initialized m s = go (m s).0 (m s).1
    where
      go :
          (r : Result A) (t : Relay Text)
          → Rolled (
              handle_with
                (λ e. rollback_startup_failure phone e connected queue_initialized >>= λ _. raise e)
                r
                t)
      go (ok a) t = tt
      go (raised e) t =
          let (o, st, w, a, l, p) = rollback-fields phone e connected queue_initialized t in
          rw (rollback-raise {A = A} phone e connected queue_initialized t) (record {
            status = st;
            worker_task = w;
            started_at = a;
            last_error = l;
            pending_text_retries = p;
          })

  -- Where a start has left the relay.
  unfoldable pub Started : ℕ → Result (Unit {0}) × Relay Text → Type 0
  Started now (ok _, s) =
      (s.status ≡ running)
      × (s.worker_task ≡ true)
      × (s.started_at ≡ some now)
      × (s.worker.stop_event ≡ false)
      × (s.worker.wakeup_event ≡ false)
  Started now (raised e, s) = IsRolledBack e s

  bind-Started :
      {A : Type 0} (now : ℕ) (m : Exec (Relay Text) A) (f : A → Exec (Relay Text) Unit)
      (s : Relay Text)
      → Rolled (m s)
      → ((a : A) (t : Relay Text) → m s ≡ (ok a, t) → Started now (f a t))
      → Started now ((m >>= f) s)
  unfolding ◌>>=◌ Started
  bind-Started {A} now m f s k next = go (m s).0 (m s).1 refl k
    where
      go :
          (r : Result A) (t : Relay Text)
          → m s ≡ (r, t)
          → Rolled (r, t)
          → Started now (continue r f t)
      go (ok a) t e j = next a t e
      go (raised x) t e j = j

  raised-ok :
      {x : Exception} {A : Type 0} {a : A} {u t : Relay Text}
      → ◌≡◌ {A = Result A × Relay Text} (raised x, u) (ok a, t)
      → ⊥
  raised-ok e = ground arith

  rolling_back-ok :
      {A : Type 0} (phone : Modem) (connected queue_initialized : Bool) (m : Exec (Relay Text) A)
      (s t : Relay Text) (a : A)
      → rolling_back phone connected queue_initialized m s ≡ (ok a, t)
      → m s ≡ (ok a, t)
  unfolding rolling_back ◌>>=◌
  rolling_back-ok {A} phone connected queue_initialized m s t a e = go (m s).0 (m s).1 refl e
    where
      go :
          (r : Result A) (u : Relay Text)
          → m s ≡ (r, u)
          → handle_with
              (λ x. rollback_startup_failure phone x connected queue_initialized >>= λ _. raise x)
              r
              u
            ≡ (ok a, t)
          → m s ≡ (ok a, t)
      go (ok b) u h k = h ∙ k
      go (raised x) u h k =
          absurd
            (raised-ok (sym (rollback-raise {A = A} phone x connected queue_initialized u) ∙ k))

  run_worker-Started :
      (now : ℕ) (s t : Relay Text) → run_worker now s ≡ (ok tt, t) → Started now (ok tt, t)
  unfolding run_worker on_worker Worker.reset Started ◌>>=◌
  run_worker-Started now s t e = ground arith

  -- `set_status` returns.
  set_status-then :
      (now : ℕ) (st : RelayStatus) (m : Exec (Relay Text) Unit) (s : Relay Text)
      → ((t : Relay Text) → Started now (m t))
      → Started now ((set_status st >>= λ _. m) s)
  unfolding set_status ◌>>=◌
  set_status-then now st m s k = k (record s { status = st })

module _ {Text : Type 0} ⦃codec : Codec Text⦄ ⦃hashing : Hashing⦄ where
  begin-Started :
      (now : ℕ) (hex : IncomingSms → String) (phone : Modem) (s t : Relay Text)
      → begin now hex phone s ≡ (ok tt, t)
      → Started now (ok tt, t)
  unfolding begin
  begin-Started now hex phone s t e =
      let (a, s₁, e₁, d₁) = bind-ok _ _ s t tt e in
      let (b, s₂, e₂, d₂) = bind-ok _ _ s₁ t tt d₁ in
      let (c, s₃, e₃, d₃) = bind-ok _ _ s₂ t tt d₂ in run_worker-Started now s₃ t d₃

  start_stopped-Started :
      (now : ℕ) (hex : IncomingSms → String) (phone : Modem) (s : Relay Text)
      → Started now (start_stopped now hex phone s)
  unfolding start_stopped Started
  start_stopped-Started now hex phone s = set_status-then now starting _ s λ s₁.
      bind-Started now _ _ s₁ (rolling_back-Rolled phone false false _ s₁) λ a s₂ e₂.
        bind-Started now _ _ s₂ (rolling_back-Rolled phone true false _ s₂) λ b s₃ e₃.
          begun now hex phone s₃ (rolling_back phone true true (begin now hex phone) s₃).0
            (rolling_back phone true true (begin now hex phone) s₃).1 refl
    where
      begun :
          (now : ℕ) (hex : IncomingSms → String) (phone : Modem) (s : Relay Text) (r : Result Unit)
          (t : Relay Text)
          → rolling_back phone true true (begin now hex phone) s ≡ (r, t)
          → Started now (r, t)
      begun now hex phone s (ok a) t e =
          begin-Started now hex phone s t
            (rolling_back-ok phone true true (begin now hex phone) s t tt e)
      begun now hex phone s (raised x) t e =
          subst Rolled e (rolling_back-Rolled phone true true (begin now hex phone) s)

  -- After `start` on a stopped relay: if it returns, the relay runs, with a worker task and the
  -- time; if it raises, at any point, the relay is stopped again, with no worker task, no start
  -- time and no pending retry, and what was raised is its last error.
  pub start-Started :
      (now : ℕ) (hex : IncomingSms → String) (phone : Modem) (s : Relay Text)
      → s.status ≡ stopped
      → Started now (start now hex phone s)
  unfolding start is_stopped
  start-Started now hex phone s e = go s.status e
    where
      go :
          (st : RelayStatus)
          → st ≡ stopped
          → Started now
              (if is_stopped st then start_stopped now hex phone s else raise relay_error s)
      go stopped e = start_stopped-Started now hex phone s
      go starting e = absurd (ground arith)
      go running e = absurd (ground arith)
      go stopping e = absurd (ground arith)
