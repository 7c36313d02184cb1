-- ===== src/Modem/Client/Noted.antt =====
-- modem/client.py: the watchers that the client notes are those that D-Bus calls.
use sms_gateway_v.Base.{
  ℕ, String, ◌⊎◌, subst, ap, ◌≡◌, refl, sym, ◌∙◌, true, false, ◌&&◌, not, List, [], ◌∷◌, arith,
  Bool-cases, inl, inr, if◌then◌else◌,
}
use sms_gateway_v.Exec.{Fault, Result, ok, raised, modify, pure, continue, ◌>>=◌}
use sms_gateway_v.Exec.Raises.{is_fuelled}
use sms_gateway_v.Modem.Bus.{Bus, Reply, answered, failed}
use sms_gateway_v.Modem.Keys.{WatchKey, watch_eq, has_watch, without_watch}
use sms_gateway_v.Modem.Client.{
  Client, after_call, silence_added, off_added, unsubscribe_added_watcher, unsubscribe_each,
  unsubscribe_all_added_watchers,
}
use sms_gateway_v.Modem.Client.Kept.{Stable}
use sms_gateway_v.Modem.Client.Keys.{watch_eq_iff, has_watch-without, IsOnce, without_watch-IsOnce}

-- the state without a watcher, once D-Bus has answered
abbrev unwatched : WatchKey → Client → Client
unwatched k c = record c {
  added_watch_keys = without_watch k c.added_watch_keys;
  added_watch_handlers = without_watch k c.added_watch_handlers;
}

same : (k j : WatchKey) → watch_eq k j ≡ true → k ≡ j
same k j e = ground (arith, watch_eq_iff k j)

module _ ⦃bus : Bus⦄ where
  -- D-Bus has failed to remove a handler of the object, at one call or another.
  abbrev pub Refused : WatchKey → Type 0
  Refused k =
      (n : ℕ) × (fault : Fault) × (cause : String) × (bus.off_added n k.0 ≡ failed fault cause)

  pub record IsWatched (c : Client) : Type 0 where
    pub keys : (k : WatchKey) → has_watch c.added_watch_keys k ≡ has_watch c.added_watch_handlers k
    pub listened :
        (k : WatchKey) → has_watch c.added_watch_handlers k ≡ true → has_watch c.listening k ≡ true
    pub heard :
        (k : WatchKey)
        → has_watch c.listening k ≡ true
        → (has_watch c.added_watch_handlers k ≡ true) ⊎ Refused k
    pub once : IsOnce c.added_watch_handlers

  unwatched-heard :
      (k j : WatchKey) (c : Client)
      → IsWatched c
      → (has_watch c.added_watch_handlers k ≡ false) ⊎ Refused k
      → has_watch c.listening j ≡ true
      → (has_watch (without_watch k c.added_watch_handlers) j ≡ true) ⊎ Refused j
  unwatched-heard k j c i gone h = elim (i.heard j h) [
    | inr r ↦ inr r
    | inl e ↦ elim (Bool-cases (watch_eq k j)) [
      | inl b ↦ elim gone [
        | inl n ↦ absurd (
            ground
              (arith, watch_eq_iff k j, e, n, ap (has_watch c.added_watch_handlers) (same k j b)))
        | inr r ↦ inr (subst Refused (same k j b) r)
      ]
      | inr b ↦ inl (has_watch-without k j c.added_watch_handlers ∙ simp b e)
    ]
  ]

  unwatched-IsWatched :
      (k : WatchKey) (c : Client)
      → IsWatched c
      → (has_watch c.added_watch_handlers k ≡ false) ⊎ Refused k
      → IsWatched (unwatched k c)
  unwatched-IsWatched k c i gone = record {
    keys = λ j. ground (
      arith,
      i.keys j,
      has_watch-without k j c.added_watch_keys,
      has_watch-without k j c.added_watch_handlers,
    );
    listened =
        λ j h. i.listened j (ground (arith, h, has_watch-without k j c.added_watch_handlers));
    heard = λ j h. unwatched-heard k j c i gone h;
    once = without_watch-IsOnce k c.added_watch_handlers i.once;
  }

  silenced-heard :
      (k j : WatchKey) (c : Client)
      → IsWatched c
      → has_watch (without_watch k c.listening) j ≡ true
      → (has_watch (without_watch k c.added_watch_handlers) j ≡ true) ⊎ Refused j
  silenced-heard k j c i h = elim (Bool-cases (watch_eq k j)) [
    | inl b ↦ absurd (ground (arith, h, b, has_watch-without k j c.listening))
    | inr b ↦
        let on : has_watch c.listening j ≡ true =
          ground (arith, h, b, has_watch-without k j c.listening) in
        elim (i.heard j on) [
          | inr r ↦ inr r
          | inl e ↦ inl (has_watch-without k j c.added_watch_handlers ∙ simp b e)
        ]
  ]

  silenced-IsWatched :
      (k : WatchKey) (c : Client)
      → IsWatched c
      → IsWatched (record (unwatched k c) { listening = without_watch k c.listening })
  silenced-IsWatched k c i = record {
    keys = λ j. ground (
      arith,
      i.keys j,
      has_watch-without k j c.added_watch_keys,
      has_watch-without k j c.added_watch_handlers,
    );
    listened = λ j h. ground (
      arith,
      h,
      i.listened j,
      has_watch-without k j c.added_watch_handlers,
      has_watch-without k j c.listening,
    );
    heard = λ j h. silenced-heard k j c i h;
    once = without_watch-IsOnce k c.added_watch_handlers i.once;
  }

  -- the same, whatever the client's other fields
  called-IsWatched : (c : Client) → IsWatched c → IsWatched (after_call c)
  called-IsWatched c i = record {
    keys = i.keys;
    listened = i.listened;
    heard = i.heard;
    once = i.once;
  }

  refused-IsWatched :
      (k : WatchKey) (c : Client) (fault : Fault) (cause : String)
      → failed fault cause ≡ bus.off_added c.calls k.0
      → IsWatched c
      → IsWatched (after_call (unwatched k c))
  refused-IsWatched k c fault cause q i =
      called-IsWatched (unwatched k c)
        (unwatched-IsWatched k c i (inr (c.calls, fault, cause, sym q)))

  silence-unwatched :
      (k : WatchKey) (c : Client) (r : Reply Unit)
      → r ≡ bus.off_added c.calls k.0
      → IsWatched c
      → IsWatched (silence_added k r (after_call (unwatched k c))).1
        × (is_fuelled (silence_added k r (after_call (unwatched k c))).0 ≡ true)
        × ((silence_added k r (after_call (unwatched k c))).1.added_watch_handlers
            ≡ without_watch k c.added_watch_handlers)
  unfolding silence_added ◌>>=◌
  silence-unwatched k c (answered a) q i =
      let w = silenced-IsWatched k c i in
      (record { keys = w.keys; listened = w.listened; heard = w.heard; once = w.once }, refl, refl)
  silence-unwatched k c (failed Fault.foreign cause) q i =
      (refused-IsWatched k c Fault.foreign cause q i, refl, refl)
  silence-unwatched k c (failed fault cause) q i =
      (refused-IsWatched k c fault cause q i, refl, refl)

  unsubscribe_lem :
      (k : WatchKey) (c : Client)
      → unsubscribe_added_watcher k c
        ≡ (if has_watch c.added_watch_handlers k then off_added k else pure tt) (unwatched k c)
  unfolding unsubscribe_added_watcher ◌>>=◌
  unsubscribe_lem k c = refl

  unsubscribe-unwatched :
      (k : WatchKey) (c : Client)
      → IsWatched c
      → IsWatched (unsubscribe_added_watcher k c).1
        × (is_fuelled (unsubscribe_added_watcher k c).0 ≡ true)
        × ((unsubscribe_added_watcher k c).1.added_watch_handlers
            ≡ without_watch k c.added_watch_handlers)
  unfolding off_added ◌>>=◌
  unsubscribe-unwatched k c i =
      rw (unsubscribe_lem k c) (elim (Bool-cases (has_watch c.added_watch_handlers k)) [
        | inl b ↦ rw b (silence-unwatched k c (bus.off_added c.calls k.0) refl i)
        | inr b ↦ rw b (unwatched-IsWatched k c i (inl b), refl, refl)
      ])

  -- What a loop over keys leaves: none of them is noted, if it returns.
  unsubscribe_each-left :
      (ks : List WatchKey) (c : Client)
      → IsWatched c
      → IsWatched (unsubscribe_each ks c).1
        × (is_fuelled (unsubscribe_each ks c).0 ≡ true)
        × ((j : WatchKey)
            → (unsubscribe_each ks c).0 ≡ ok tt
            → has_watch (unsubscribe_each ks c).1.added_watch_handlers j
              ≡ (has_watch c.added_watch_handlers j && not (has_watch ks j)))
  unfolding unsubscribe_each ◌>>=◌ has_watch
  unsubscribe_each-left [] c i = (i, refl, λ j e. ground arith)
  unsubscribe_each-left (k ∷ ks) c i =
      let u = unsubscribe-unwatched k c i in
      go (unsubscribe_added_watcher k c).0 (unsubscribe_added_watcher k c).1 u.0 u.1 u.2
        (unsubscribe_each-left ks)
    where
      go :
          (r : Result Unit) (d : Client)
          → IsWatched d
          → is_fuelled r ≡ true
          → d.added_watch_handlers ≡ without_watch k c.added_watch_handlers
          → ((d : Client)
              → IsWatched d
              → IsWatched (unsubscribe_each ks d).1
                × (is_fuelled (unsubscribe_each ks d).0 ≡ true)
                × ((j : WatchKey)
                    → (unsubscribe_each ks d).0 ≡ ok tt
                    → has_watch (unsubscribe_each ks d).1.added_watch_handlers j
                      ≡ (has_watch d.added_watch_handlers j && not (has_watch ks j))))
          → IsWatched (continue r (λ a. unsubscribe_each ks) d).1
            × (is_fuelled (continue r (λ a. unsubscribe_each ks) d).0 ≡ true)
            × ((j : WatchKey)
                → (continue r (λ a. unsubscribe_each ks) d).0 ≡ ok tt
                → has_watch (continue r (λ a. unsubscribe_each ks) d).1.added_watch_handlers j
                  ≡ (has_watch c.added_watch_handlers j && not (has_watch (k ∷ ks) j)))
      go (ok a) d w p e h = (
        (h d w).0,
        (h d w).1,
        λ j o.
            (h d w).2 j o
            ∙ ground
                (arith, ap (λ l. has_watch l j) e, has_watch-without k j c.added_watch_handlers),
      )
      go (raised x) d w p e h = (w, p, λ j o. cc)

  -- The removal of all watchers, if it returns, leaves none.
  pub unsubscribe_all-left :
      (c : Client)
      → IsWatched c
      → IsWatched (unsubscribe_all_added_watchers c).1
        × (is_fuelled (unsubscribe_all_added_watchers c).0 ≡ true)
        × ((j : WatchKey)
            → (unsubscribe_all_added_watchers c).0 ≡ ok tt
            → has_watch (unsubscribe_all_added_watchers c).1.added_watch_handlers j ≡ false)
  unfolding unsubscribe_all_added_watchers ◌>>=◌ has_watch
  unsubscribe_all-left c i =
      let l = unsubscribe_each-left c.added_watch_handlers c i in
      go (unsubscribe_each c.added_watch_handlers c).0 (unsubscribe_each c.added_watch_handlers c).1
        l.0 l.1 (λ j e. l.2 j e ∙ ground arith)
    where
      go :
          (r : Result Unit) (d : Client)
          → IsWatched d
          → is_fuelled r ≡ true
          → ((j : WatchKey) → r ≡ ok tt → has_watch d.added_watch_handlers j ≡ false)
          → IsWatched (continue r (λ a. modify (λ c. record c { added_watch_keys = [] })) d).1
            × (is_fuelled (continue r (λ a. modify (λ c. record c { added_watch_keys = [] })) d).0
                ≡ true)
            × ((j : WatchKey)
                → (continue r (λ a. modify (λ c. record c { added_watch_keys = [] })) d).0 ≡ ok tt
                → has_watch
                    (continue r
                      (λ a. modify (λ c. record c { added_watch_keys = [] }))
                      d).1.added_watch_handlers
                    j
                  ≡ false)
      go (ok a) d w p h = (
        record {
          keys = λ j. sym (h j refl);
          listened = w.listened;
          heard = w.heard;
          once = w.once;
        },
        refl,
        (λ j o. h j refl),
      )
      go (raised x) d w p h = (w, p, λ j o. cc)

  pub IsWatched-Stable : Stable IsWatched
  IsWatched-Stable = record {
    called = λ c i. record { keys = i.keys; listened = i.listened; heard = i.heard; once = i.once };
    found =
        λ c path i. record { keys = i.keys; listened = i.listened; heard = i.heard; once = i.once };
    required =
        λ c b i. record { keys = i.keys; listened = i.listened; heard = i.heard; once = i.once };
    unsubscribed = record {
      keeps = λ c i. (unsubscribe_all-left c i).0;
      fuelled = λ c i. (unsubscribe_all-left c i).1;
    };
  }
