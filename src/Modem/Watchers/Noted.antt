-- ===== src/Modem/Watchers/Noted.antt =====
-- modem/client.py: adding a watcher, connecting and disconnecting, and what is noted of the watchers.
use sms_gateway_v.Base.{
  ◌⊎◌, ◌≡◌, refl, sym, ◌∙◌, none, true, false, [], ◌∷◌, ◌++◌, arith, Bool-cases, inl, inr,
}
use sms_gateway_v.Exec.{Result, ok, raised, bus_error, continue, ◌>>=◌}
use sms_gateway_v.Exec.Raises.{is_fuelled}
use sms_gateway_v.Exec.Runs.{Runs}
use sms_gateway_v.Modem.Bus.{Bus}
use sms_gateway_v.Modem.Keys.{WatchKey, watch_eq, has_watch}
use sms_gateway_v.Modem.Client.{Client, after_call, unsubscribe_all_added_watchers}
use sms_gateway_v.Modem.Client.Kept.{call-cases}
use sms_gateway_v.Modem.Client.Keys.{has_watch-append, append-IsOnce}
use sms_gateway_v.Modem.Client.Noted.{Refused, IsWatched, IsWatched-Stable, unsubscribe_all-left}
use sms_gateway_v.Modem.Watchers.{add_watcher, drop_bus, close_bus, disconnect}
use sms_gateway_v.Modem.Watchers.Clock.{add_watcher-Since}
use sms_gateway_v.Modem.Watchers.Kept.{StableLink}

-- the client with a watcher more
abbrev watching : WatchKey → Client → Client
watching k c = record c {
  listening = k ∷ c.listening;
  added_watch_keys = k ∷ c.added_watch_keys;
  added_watch_handlers = c.added_watch_handlers ++ (k ∷ []);
}

module _ ⦃bus : Bus⦄ where
  watching-heard :
      (k j : WatchKey) (c : Client)
      → IsWatched c
      → has_watch (k ∷ c.listening) j ≡ true
      → (has_watch (c.added_watch_handlers ++ (k ∷ [])) j ≡ true) ⊎ Refused j
  unfolding has_watch
  watching-heard k j c i h = elim (Bool-cases (watch_eq k j)) [
    | inl b ↦ inl (ground (arith, b, has_watch-append k j c.added_watch_handlers))
    | inr b ↦
        let on : has_watch c.listening j ≡ true = ground (arith, h, b) in
        elim (i.heard j on) [
          | inl e ↦ inl (ground (arith, e, has_watch-append k j c.added_watch_handlers))
          | inr r ↦ inr r
        ]
  ]

  watching-IsWatched :
      (k : WatchKey) (c : Client)
      → has_watch c.added_watch_keys k ≡ false
      → IsWatched c
      → IsWatched (watching k c)
  unfolding has_watch
  watching-IsWatched k c h i = record {
    keys = λ j. ground (arith, i.keys j, has_watch-append k j c.added_watch_handlers);
    listened = λ j e. ground (arith, e, i.listened j, has_watch-append k j c.added_watch_handlers);
    heard = λ j e. watching-heard k j c i e;
    once = append-IsOnce k c.added_watch_handlers (sym (i.keys k) ∙ h) i.once;
  }

  add_watcher-noted : (k : WatchKey) (c : Client) → IsWatched c → IsWatched (add_watcher k c).1
  unfolding add_watcher ◌>>=◌
  add_watcher-noted k c i = elim (Bool-cases (has_watch c.added_watch_keys k)) [
    | inl b ↦ rw b i
    | inr b ↦ rw b (elim (call-cases (λ fault cause. bus_error fault) (λ n. bus.on_added n k.0) c) [
      | inl (a, e) ↦ rw e (watching-IsWatched k (after_call c) b (IsWatched-Stable.called c i))
      | inr (x, e) ↦ rw e (IsWatched-Stable.called c i)
    ])
  ]

  pub add_watcher-IsWatched : (k : WatchKey) → Runs IsWatched (add_watcher k)
  add_watcher-IsWatched k = record {
    keeps = add_watcher-noted k;
    fuelled = λ c i. (add_watcher-Since c.now k).fuelled c (omega arith);
  }

  empty-IsWatched :
      (c : Client)
      → ((j : WatchKey) → has_watch c.added_watch_handlers j ≡ false)
      → IsWatched c
      → IsWatched (record c {
        has_bus = false;
        modem_path = none;
        added_callbacks = [];
        added_watch_resubscribe_required = false;
        listening = [];
      })
  unfolding has_watch
  empty-IsWatched c h i = record {
    keys = i.keys;
    listened = λ j e. ground (arith, e, h j);
    heard = λ j e. absurd (ground (arith, e));
    once = i.once;
  }

  disconnect-noted :
      (c : Client) → IsWatched c → IsWatched (disconnect c).1 × (is_fuelled (disconnect c).0 ≡ true)
  unfolding disconnect ◌>>=◌
  disconnect-noted c i = elim (Bool-cases c.has_bus) [
    | inl b ↦
        let l = unsubscribe_all-left c i in
        simp b
          (go (unsubscribe_all_added_watchers c).0 (unsubscribe_all_added_watchers c).1 l.0 l.1 l.2)
    | inr b ↦ simp b (i, refl)
  ]
    where
      go :
          (r : Result Unit) (d : Client)
          → IsWatched d
          → is_fuelled r ≡ true
          → ((j : WatchKey) → r ≡ ok tt → has_watch d.added_watch_handlers j ≡ false)
          → IsWatched (continue r (λ a. close_bus) d).1
            × (is_fuelled (continue r (λ a. close_bus) d).0 ≡ true)
      go (ok a) d w p h = (empty-IsWatched d (λ j. h j refl) w, refl)
      go (raised x) d w p h = (w, p)

  pub IsWatched-StableLink : StableLink IsWatched
  unfolding drop_bus ◌>>=◌ has_watch
  IsWatched-StableLink = record {
    stable = IsWatched-Stable;
    added = add_watcher-IsWatched;
    called_back =
        λ c ks i. record { keys = i.keys; listened = i.listened; heard = i.heard; once = i.once };
    dropped = record {
      keeps =
          λ c i. record { keys = λ k. refl; listened = λ k e. e; heard = λ k e. inl e; once = tt };
      fuelled = λ c i. refl;
    };
    opened = λ c i. record { keys = i.keys; listened = i.listened; heard = i.heard; once = i.once };
    closed = record {
      keeps = λ c i. (disconnect-noted c i).0;
      fuelled = λ c i. (disconnect-noted c i).1;
    };
  }
