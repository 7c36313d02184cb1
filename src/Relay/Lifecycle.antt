-- ===== src/Relay/Lifecycle.antt =====
-- relay/relay.py: `start`, `stop` and what they undo. Both run under the lifecycle lock. The end of
-- the worker's task is not modelled: `_wait_for_worker_shutdown` swallows whatever it ends with.
pub mod States
use sms_gateway_v.Base.{ℕ, String, Bool, true, false, Option, none, some, [], if◌then◌else◌}
use sms_gateway_v.Exec.{
  Exec, Exception, relay_error, Result, ok, raised, pure, raise, gets, modify, catch, ◌>>=◌, ◌>>◌,
}
use sms_gateway_v.Queue.Models.{IncomingSms, Codec, Hashing}
use sms_gateway_v.Queue.Recovery
use sms_gateway_v.Worker
use sms_gateway_v.Relay.State.{
  RelayStatus, stopped, starting, running, stopping, Relay, Modem, on_queue, on_worker, answer,
}
use sms_gateway_v.Relay.Messages.{drain_existing_messages}

is_stopped : RelayStatus → Bool
is_stopped stopped = true
is_stopped _ = false

keep_first : Option Exception → Exception → Option Exception
keep_first none e = some e
keep_first (some first) e = some first

unfoldable pub is_idle : RelayStatus → Bool
is_idle stopped = true
is_idle stopping = true
is_idle _ = false

module _ {Text : Type 0} where
  set_status : RelayStatus → Exec (Relay Text) Unit
  set_status st = modify (λ s. record s { status = st })

  -- _cancel_pending_text_retries
  cancel_pending_text_retries : Exec (Relay Text) Unit
  cancel_pending_text_retries = modify (λ s. record s { pending_text_retries = [] })

  -- `with suppress(Exception)`
  suppressed : Exec (Relay Text) Unit → Exec (Relay Text) Unit
  suppressed m = catch m (λ _. pure tt)

  disconnect : Modem → Exec (Relay Text) Unit
  unfolding answer
  disconnect phone = do answer phone.disconnect; modify (λ s. record s { connected = false })

  when : Bool → Exec (Relay Text) Unit → Exec (Relay Text) Unit
  when true m = m
  when false m = pure tt

  -- _rollback_startup_failure
  rollback_startup_failure : Modem → Exception → Bool → Bool → Exec (Relay Text) Unit
  unfolding cancel_pending_text_retries suppressed disconnect when on_queue
  rollback_startup_failure phone e connected queue_initialized = do
    modify (λ s. record s { last_error = some e })
    cancel_pending_text_retries
    when connected (suppressed (disconnect phone))
    when queue_initialized (suppressed (on_queue Recovery.close))
    modify (λ s. record s { worker_task = false; started_at = none; status = stopped })

  -- The `except` clauses of `_start_locked`, at one point of its body.
  rolling_back : {A : Type 0} → Modem → Bool → Bool → Exec (Relay Text) A → Exec (Relay Text) A
  unfolding rollback_startup_failure
  rolling_back phone connected queue_initialized m =
      catch m (λ e. do rollback_startup_failure phone e connected queue_initialized; raise e)

  connect : Modem → Exec (Relay Text) Unit
  unfolding answer
  connect phone = do answer phone.connect; modify (λ s. record s { connected = true })

  -- `self._worker.reset()`, the worker's task, and the new status
  run_worker : ℕ → Exec (Relay Text) Unit
  unfolding on_worker
  run_worker now = do
    on_worker Worker.reset
    modify (λ s. record s { worker_task = true; started_at = some now; status = running })

module _ {Text : Type 0} ⦃codec : Codec Text⦄ ⦃hashing : Hashing⦄ where
  -- what follows `queue.initialize` in the `try`
  begin : ℕ → (IncomingSms → String) → Modem → Exec (Relay Text) Unit
  unfolding on_queue answer run_worker
  begin now hex phone = do
    recovered ← on_queue Recovery.recover_processing
    answer phone.watch_added
    drain_existing_messages now hex phone
    run_worker now

  start_stopped : ℕ → (IncomingSms → String) → Modem → Exec (Relay Text) Unit
  unfolding set_status rolling_back connect begin on_queue
  start_stopped now hex phone = do
    set_status starting
    rolling_back phone false false (connect phone)
    rolling_back phone true false (on_queue (Recovery.initialize now))
    rolling_back phone true true (begin now hex phone)

  -- _start_locked
  unfoldable pub start : ℕ → (IncomingSms → String) → Modem → Exec (Relay Text) Unit
  unfolding start_stopped is_stopped
  start now hex phone s =
      if is_stopped s.status then start_stopped now hex phone s else raise relay_error s

module _ {Text : Type 0} where
  note_error : Exception → Exec (Relay Text) Unit
  note_error e = modify (λ s. record s { last_error = some e })

  -- _disconnect_and_close: the first exception of the two, which are both tried
  disconnect_and_close : Modem → Exec (Relay Text) (Option Exception)
  unfolding disconnect note_error keep_first on_queue
  disconnect_and_close phone = do
    stop_error ← catch (do disconnect phone; pure none) (λ e. do note_error e; pure (some e))
    catch (do on_queue Recovery.close; pure stop_error)
        (λ e. do note_error e; pure (keep_first stop_error e))

  raise_error : Option Exception → Exec (Relay Text) Unit
  raise_error none = pure tt
  raise_error (some e) = raise e

  stop_running : Modem → Exec (Relay Text) Unit
  unfolding set_status cancel_pending_text_retries disconnect_and_close raise_error on_worker
  stop_running phone = do
    set_status stopping
    cancel_pending_text_retries
    on_worker Worker.stop
    stop_error ← disconnect_and_close phone
    modify (λ s. record s { status = stopped; worker_task = false; started_at = none })
    raise_error stop_error

  -- _stop_started_relay
  unfoldable pub stop : Modem → Exec (Relay Text) Unit
  unfolding stop_running is_idle
  stop phone s = if is_idle s.status then pure tt s else stop_running phone s
