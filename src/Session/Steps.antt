-- ===== src/Session/Steps.antt =====
-- The manager as a transition system: any critical section, at any time and in any order.
use playgate.Common.{
  ℕ, ◌≡◌, refl, sym, subst, inl, inr, true, false, Option, none, some, String, List, [], ◌∷◌,
  Option-cases, if_cases, arith,
}
use playgate.Common.Result.{Result}
use playgate.Jwt.{Claims, JwtError}
use playgate.Session.Holders.{
  holders_of, Good, Good-update, Good-behind, NotIn-remove_first, length-remove_first,
}
use playgate.Session.Invariant.{Inv, set_entry-Inv, claim-Inv, end_session-Inv, Good-of-active}
use playgate.Session.{
  Config, SessionEntry, GateHandle, Manager, EventKind, expired, idle_kicked, new_manager,
  emit_event, cancel, close_gates, set_entry, remove_first, contains, subscribe, unsubscribe,
}
use playgate.Session.Control.{
  claim, is_active, end_session, kick_with, kick, release, watch_tick, shut_all, shut_active,
  drop_queued, shutdown,
}
use playgate.Session.Gates.{gate, add_handle, touch_idle, gate_close, deliver, find_entry}

module _ {Cmd : Type 0} where
  -- One critical section. Those of a round of a gate are apart: it touches a timer, and later delivers,
  -- though the viewer may have lost control by then. `ends` is a timer, a context or a release that calls `endSession` for any
  -- entry, at a time when that entry may have ended already.
  pub data Step (m : Manager Cmd) : Manager Cmd → Type 0 where
    claims : (r : Result JwtError Claims) (now : ℕ) → Step m (claim m r now).0
    ends : (i : ℕ) (kind : EventKind) (now : ℕ) → Step m (end_session m i kind now)
    kicks : (now : ℕ) → Step m (kick m now)
    releases : (i now : ℕ) → Step m (release m i now)
    gates : (viewer : String) → Step m (gate m viewer)
    touches : (i now : ℕ) → Step m (touch_idle m i now)
    delivers : (h : ℕ) (cmd : Cmd) → Step m (deliver m h cmd)
    closes : (h : ℕ) → Step m (gate_close m h)
    ticks : (i now : ℕ) → Step m (watch_tick m i now)
    subscribes : (ch : ℕ) → Step m (subscribe m ch)
    unsubscribes : (ch : ℕ) → Step m (unsubscribe m ch)
    shuts : Step m (shutdown m)

  pub data Reach (m : Manager Cmd) : Manager Cmd → Type 0 where
    here : Reach m m
    next : {t u : Manager Cmd} → Reach m t → Step t u → Reach m u

  kick_with-Inv : (a : Option ℕ) (m : Manager Cmd) (now : ℕ) → Inv m → Inv (kick_with a m now)
  unfolding kick_with
  kick_with-Inv none m now v = v
  kick_with-Inv (some i) m now v = end_session-Inv m i idle_kicked now v

  pub kick-Inv : (m : Manager Cmd) (now : ℕ) → Inv m → Inv (kick m now)
  unfolding kick
  kick-Inv m now v = kick_with-Inv m.active m now v

  -- A waiting entry is taken out, cancelled, and its gates closed.
  drop_queued-Inv :
      (a : ℕ) (m : Manager Cmd) (i : ℕ)
      → m.active ≡ some a
      → is_active m i ≡ false
      → Inv m
      → Inv (drop_queued m i)
  unfolding drop_queued close_gates cancel set_entry is_active
  drop_queued-Inv a m i e other v =
      let g = Good-of-active m (some a) e v in
      let away = NotIn-remove_first i m.queue g.distinct.1 in
      let apart : (x : a ≡ i) → ⊥ = λ x. ground arith in
      let kept : Good m.next_entry (drop_queued m i).entries m.stopped
          (a ∷ remove_first i m.queue) =
        Good-update _ i (apart, away) (Good-update _ i (apart, away) (Good-behind i g)) in
      record {
        good =
            subst
              (λ b.
                Good m.next_entry (drop_queued m i).entries m.stopped
                  (holders_of b (remove_first i m.queue)))
              (sym e) kept;
        no_wait = λ z. cc;
        depth = λ h. omega (arith, v.depth h, length-remove_first i m.queue);
      }

  release-Inv : (m : Manager Cmd) (i now : ℕ) → Inv m → Inv (release m i now)
  unfolding release
  release-Inv m i now v =
      if_cases Inv (is_active m i) _ _ (λ _. end_session-Inv m i expired now v)
        (λ other. if_cases Inv (contains i m.queue) _ m (queued other) (λ _. v))
    where
      queued : is_active m i ≡ false → contains i m.queue ≡ true → Inv (drop_queued m i)
      queued other found = elim (Option-cases m.active) [
        | inl e ↦
            absurd (
              unfold contains in let f = subst (λ q. contains i q ≡ true) (v.no_wait e) found in cc)
        | inr (a, e) ↦ drop_queued-Inv a m i e other v
      ]

  gate-Inv : (m : Manager Cmd) (viewer : String) → Inv m → Inv (gate m viewer)
  unfolding gate add_handle
  gate-Inv m viewer v = elim (Option-cases (find_entry m viewer)) [
    | inl e ↦ rw (e, gate) (record { good = v.good; no_wait = v.no_wait; depth = v.depth })
    | inr (i, e) ↦
        rw (e, gate)
          (if_cases Inv (m.entries i).gates_done _ _
            (λ _. record { good = v.good; no_wait = v.no_wait; depth = v.depth })
            (λ _.
              set_entry-Inv _ i _ refl refl
                (record { good = v.good; no_wait = v.no_wait; depth = v.depth })))
  ]

  touch_idle-Inv : (m : Manager Cmd) (i now : ℕ) → Inv m → Inv (touch_idle m i now)
  unfolding touch_idle
  touch_idle-Inv m i now v = elim (Option-cases (m.entries i).idle_timer) [
    | inl e ↦ rw (e, touch_idle) v
    | inr (t, e) ↦ rw (e, touch_idle) (set_entry-Inv m i _ refl refl v)
  ]

  deliver-Inv : (m : Manager Cmd) (h : ℕ) (cmd : Cmd) → Inv m → Inv (deliver m h cmd)
  unfolding deliver
  deliver-Inv m h cmd v =
      if_cases Inv (m.handles h).closed m _ (λ _. v)
        (λ _. record { good = v.good; no_wait = v.no_wait; depth = v.depth })

  watch_tick-Inv : (m : Manager Cmd) (i now : ℕ) → Inv m → Inv (watch_tick m i now)
  unfolding watch_tick emit_event
  watch_tick-Inv m i now v = elim (Option-cases (m.entries i).deadline) [
    | inl e ↦ rw (e, watch_tick) v
    | inr (d, e) ↦
        rw (e, watch_tick)
          (if_cases Inv (is_active m i) _ m
            (λ _. record { good = v.good; no_wait = v.no_wait; depth = v.depth }) (λ _. v))
  ]

  -- Once stopped, the flags of the entries no longer matter.
  shut_entry-Inv :
      (m : Manager Cmd) (i : ℕ) → m.stopped ≡ true → Inv m → Inv (close_gates (cancel m i) i)
  unfolding close_gates cancel set_entry
  shut_entry-Inv m i s v = record {
    good = record {
      allocated = v.good.allocated;
      distinct = v.good.distinct;
      live = λ z. absurd (ground arith);
      open_gates = λ z. absurd (ground arith);
    };
    no_wait = v.no_wait;
    depth = v.depth;
  }

  shut_all-Inv : (is : List ℕ) (m : Manager Cmd) → m.stopped ≡ true → Inv m → Inv (shut_all m is)
  unfolding shut_all
  shut_all-Inv [] m s v = v
  shut_all-Inv (i ∷ is) m s v =
      shut_all-Inv is (close_gates (cancel m i) i) (unfold close_gates cancel set_entry in s)
        (shut_entry-Inv m i s v)

  shut_active-Inv :
      (a : Option ℕ) (m : Manager Cmd)
      → m.stopped ≡ true
      → Inv m
      → ((shut_active a m).stopped ≡ true) × Inv (shut_active a m)
  unfolding shut_active
  shut_active-Inv none m s v = (s, v)
  shut_active-Inv (some i) m s v =
      (unfold close_gates cancel set_entry in s, shut_entry-Inv m i s v)

  pub shutdown-Inv : (m : Manager Cmd) → Inv m → Inv (shutdown m)
  unfolding shutdown
  shutdown-Inv m v =
      let (s, w) = shut_active-Inv m.active _ refl (marked m v) in shut_all-Inv m.queue _ s w
    where
      marked : (m : Manager Cmd) → Inv m → Inv (record m { stopped = true })
      marked m v = record {
        good = record {
          allocated = v.good.allocated;
          distinct = v.good.distinct;
          live = λ z. absurd (ground arith);
          open_gates = λ z. absurd (ground arith);
        };
        no_wait = v.no_wait;
        depth = v.depth;
      }

  -- Every critical section keeps the manager's state sound: the entries in control and in the queue
  -- are distinct, and until the shutdown their `cancel` was not called and they still take gates; nobody
  -- waits while control is free; and the queue keeps to its depth.
  pub Step-Inv : {m n : Manager Cmd} → Step m n → Inv m → Inv n
  Step-Inv {m} (claims r now) v = claim-Inv m r now v
  Step-Inv {m} (ends i kind now) v = end_session-Inv m i kind now v
  Step-Inv {m} (kicks now) v = kick-Inv m now v
  Step-Inv {m} (releases i now) v = release-Inv m i now v
  Step-Inv {m} (gates viewer) v = gate-Inv m viewer v
  Step-Inv {m} (touches i now) v = touch_idle-Inv m i now v
  Step-Inv {m} (delivers h cmd) v = deliver-Inv m h cmd v
  Step-Inv {m} (closes h) v =
      unfold gate_close in record { good = v.good; no_wait = v.no_wait; depth = v.depth }
  Step-Inv {m} (ticks i now) v = watch_tick-Inv m i now v
  Step-Inv {m} (subscribes ch) v =
      unfold subscribe in record { good = v.good; no_wait = v.no_wait; depth = v.depth }
  Step-Inv {m} (unsubscribes ch) v =
      unfold unsubscribe in record { good = v.good; no_wait = v.no_wait; depth = v.depth }
  Step-Inv {m} shuts v = shutdown-Inv m v

  new_manager-Inv :
      (cfg : Config) (es : ℕ → SessionEntry) (hs : ℕ → GateHandle Cmd) → Inv (new_manager cfg es hs)
  unfolding new_manager
  new_manager-Inv cfg es hs = record {
    good = record { allocated = tt; distinct = tt; live = λ _. tt; open_gates = λ _. tt };
    no_wait = λ _. refl;
    depth = λ h. omega arith;
  }

  -- In every state that a new manager can reach, by critical sections in any order, the entries in
  -- control and in the queue are distinct, and until the shutdown their `cancel` was not called and
  -- `closeGates` has not run on them; nobody waits while control is free; and the queue keeps to its
  -- depth.
  pub Reach-Inv :
      (cfg : Config) (es : ℕ → SessionEntry) (hs : ℕ → GateHandle Cmd) {m : Manager Cmd}
      → Reach (new_manager cfg es hs) m
      → Inv m
  Reach-Inv cfg es hs here = new_manager-Inv cfg es hs
  Reach-Inv cfg es hs (next r s) = Step-Inv s (Reach-Inv cfg es hs r)
