-- ===== src/Modem/Client/Kept.antt =====
-- modem/client.py: what the search for a modem and the removal of watchers preserve. A predicate is
-- stable if the writes of the client preserve it.
use sms_gateway_v.Base.{
  ℕ, ◌⊎◌, ◌≡◌, refl, true, String, Bool, Option, none, List, [], ◌∷◌, ◌&&◌, inl, inr,
}
use sms_gateway_v.Exec.{
  unknown_object, unknown_property, interface_not_found, operation, foreign, Exec, Exception, Fault,
  ok, raised, raise, gets, ◌>>=◌,
}
use sms_gateway_v.Exec.Gives.{Gives, Returns}
use sms_gateway_v.Exec.Runs.{
  Runs, Runs-bind, Runs-if, Runs-gets, Runs-raise, Runs-modify, runs_rules,
}
use sms_gateway_v.Exec.Raises.{is_python, is_fuelled}
use sms_gateway_v.Modem.Bus.{Bus, Reply, answered, failed}
use sms_gateway_v.Modem.Client.{
  Client, after_call, operation_error, result_of, call, require_bus, list_modem_paths, take_first,
  find_modem, query_proxy, get_proxy_object, get_proxy_interface, unsubscribe_all_added_watchers,
  require_resubscribe, forget_modem_path, refresh_modem_path, or_refresh, get_cached_proxy_object,
  is_cached,
}

pub record Stable ⦃bus : Bus⦄ (I : Client → Type 0) : Type 0 where
  pub called : (c : Client) → I c → I (after_call c)
  pub found : (c : Client) (path : Option String) → I c → I (record c { modem_path = path })
  pub required :
      (c : Client) (b : Bool) → I c → I (record c { added_watch_resubscribe_required = b })
  pub unsubscribed : Runs I unsubscribe_all_added_watchers

module _ ⦃bus : Bus⦄ where
  -- A call ends with an answer or with an exception, and one more call is made.
  pub call-cases :
      {A : Type 0} (handler : Fault → String → Exception) (ask : ℕ → Reply A) (c : Client)
      → ((a : A) × (call handler ask c ≡ (ok a, after_call c)))
        ⊎ ((e : Exception) × (call handler ask c ≡ (raised e, after_call c)))
  unfolding call ◌>>=◌
  call-cases {A} handler ask c = go (ask c.calls)
    where
      go :
          (r : Reply A)
          → ((a : A) × (result_of handler r (after_call c) ≡ (ok a, after_call c)))
            ⊎ ((e : Exception) × (result_of handler r (after_call c) ≡ (raised e, after_call c)))
      go (answered a) = inl (a, refl)
      go (failed fault cause) = inr (operation_error handler fault cause, refl)

  pub call-answered :
      {A : Type 0} {P : Client → Type 0} (handler : Fault → String → Exception) (ask : ℕ → Reply A)
      → Gives P (λ a c. (n : ℕ) × (ask n ≡ answered a)) (call handler ask)
  unfolding call ◌>>=◌
  call-answered {A} handler ask = record {
    at = λ c p. go c.calls (ask c.calls) refl (after_call c);
  }
    where
      go :
          (n : ℕ) (r : Reply A)
          → ask n ≡ r
          → (c : Client)
          → Returns
              (λ a d. (n : ℕ) × (ask n ≡ answered a))
              (result_of handler r c).0
              (result_of handler r c).1
      go n (answered a) e c = (n, e)
      go n (failed fault cause) e c = tt

module _ ⦃bus : Bus⦄ {I : Client → Type 0} (st : Stable I) where
  pub Runs-call :
      {A : Type 0} (handler : Fault → String → Exception) (ask : ℕ → Reply A)
      → ((fault : Fault) (cause : String) → is_python (handler fault cause) ≡ true)
      → Runs I (call handler ask)
  unfolding call ◌>>=◌ operation_error
  Runs-call {A} handler ask p = record {
    keeps = λ c i. kept (ask c.calls) (after_call c) (st.called c i);
    fuelled = λ c i. ended (ask c.calls) (after_call c);
  }
    where
      kept : (r : Reply A) (c : Client) → I c → I (result_of handler r c).1
      kept (answered a) c i = i
      kept (failed fault cause) c i = i

      ended : (r : Reply A) (c : Client) → is_fuelled (result_of handler r c).0 ≡ true
      ended (answered a) c = refl
      ended (failed unknown_object cause) c = p unknown_object cause
      ended (failed unknown_property cause) c = p unknown_property cause
      ended (failed interface_not_found cause) c = p interface_not_found cause
      ended (failed operation cause) c = p operation cause
      ended (failed foreign cause) c = refl

  Runs-require_bus : Runs I require_bus
  unfolding require_bus
  Runs-require_bus = search runs_rules

  Runs-take_first : (paths : List String) → Runs I (take_first paths)
  unfolding take_first
  Runs-take_first [] = search runs_rules
  Runs-take_first (path ∷ paths) = search (runs_rules, Runs-modify, λ (c : Client). st.found c)

  pub Runs-list_modem_paths : Runs I list_modem_paths
  unfolding list_modem_paths
  Runs-list_modem_paths = search (runs_rules, Runs-call, Runs-require_bus)

  pub Runs-find_modem : Runs I find_modem
  unfolding find_modem
  Runs-find_modem = search (runs_rules, Runs-list_modem_paths, Runs-take_first)

  Runs-query_proxy : (kind path : String) → Runs I (query_proxy kind path)
  unfolding query_proxy
  Runs-query_proxy kind path = search (runs_rules, Runs-call, Runs-require_bus)

  pub Runs-get_proxy_object : (kind path : String) → Runs I (get_proxy_object kind path)
  unfolding get_proxy_object
  Runs-get_proxy_object kind path = search (runs_rules, Runs-query_proxy)

  pub Runs-get_proxy_interface :
      (kind path name : String) → Runs I (get_proxy_interface kind path name)
  unfolding get_proxy_interface
  Runs-get_proxy_interface kind path name = Runs-call _ _ (λ fault cause. refl)

  pub Runs-require_resubscribe : Runs I require_resubscribe
  unfolding require_resubscribe
  Runs-require_resubscribe = Runs-modify _ (λ c i. st.required c _ i)

  Runs-forget : Runs I forget_modem_path
  unfolding forget_modem_path
  Runs-forget = Runs-modify _ (λ c i. st.found c none i)

  pub Runs-refresh_modem_path : Runs I refresh_modem_path
  unfolding refresh_modem_path
  Runs-refresh_modem_path =
      Runs-bind unsubscribe_all_added_watchers _ st.unsubscribed
        (λ a. search (runs_rules, Runs-require_resubscribe, Runs-forget, Runs-find_modem))

  pub Runs-or_refresh :
      {A : Type 0} (stale : Bool) (path : String) (again : Exec Client A) (e : Exception)
      → is_python e ≡ true
      → Runs I again
      → Runs I (or_refresh stale path again e)
  unfolding or_refresh
  Runs-or_refresh {A} stale path again e p k =
      Runs-bind (gets (λ c. c.modem_path)) _ (Runs-gets _)
        (λ cached. Runs-if (stale && is_cached path cached) again (raise e) k (Runs-raise e p))

  pub Runs-get_cached_proxy_object :
      (kind path : String) → Runs I (get_cached_proxy_object kind path)
  unfolding get_cached_proxy_object
  Runs-get_cached_proxy_object kind path = search (
    runs_rules, Runs-query_proxy, Runs-or_refresh, Runs-refresh_modem_path, Runs-get_proxy_object,
  )
