-- ===== src/Session/Shutdown.antt =====
-- What the shutdown leaves running.
use playgate.Common.{ℕ, ◌≡◌, refl, ◌∙◌, ap, subst, true, false, Option, none, some, List, [], ◌∷◌}
use playgate.Session.Invariant.{Inv}
use playgate.Session.Steps.{shutdown-Inv}
use playgate.Session.Promotion.{end_session-Promoted}
use playgate.Session.{Manager, EventKind, close_gates, cancel, set_entry}
use playgate.Session.Control.{shut_all, shut_active, shutdown, end_session}

module _ {Cmd : Type 0} where
  -- The fields that the shutdown leaves alone.
  record Same (m r : Manager Cmd) : Type 0 where
    active : r.active ≡ m.active
    queue : r.queue ≡ m.queue
    next_entry : r.next_entry ≡ m.next_entry
    stopped : r.stopped ≡ m.stopped

  shut_all-Same : (is : List ℕ) (m : Manager Cmd) → Same m (shut_all m is)
  unfolding shut_all close_gates cancel set_entry
  shut_all-Same [] m = record { active = refl; queue = refl; next_entry = refl; stopped = refl }
  shut_all-Same (i ∷ is) m =
      let s = shut_all-Same is (close_gates (cancel m i) i) in
      record { active = s.active; queue = s.queue; next_entry = s.next_entry; stopped = s.stopped }

  shut_active-Same : (a : Option ℕ) (m : Manager Cmd) → Same m (shut_active a m)
  unfolding shut_active close_gates cancel set_entry
  shut_active-Same none m = record {
    active = refl;
    queue = refl;
    next_entry = refl;
    stopped = refl;
  }
  shut_active-Same (some i) m = record {
    active = refl;
    queue = refl;
    next_entry = refl;
    stopped = refl;
  }

  -- From a sound state, after `Run` has shut everything down, the end of the session in control,
  -- which its watcher calls for since its context is cancelled, still promotes the next waiter into
  -- a live session.
  pub shutdown_promotes :
      (m : Manager Cmd) (a i : ℕ) (rest : List ℕ) (k : EventKind) (now : ℕ)
      → Inv m
      → m.active ≡ some a
      → m.queue ≡ i ∷ rest
      → let r = end_session (shutdown m) a k now in
        (r.active ≡ some m.next_entry)
        × ((r.entries m.next_entry).cancelled ≡ false)
        × ((shutdown m).stopped ≡ true)
  unfolding shutdown
  shutdown_promotes m a i rest k now v ea eq =
      let marked = record m { stopped = true } in
      let s = shut_all-Same m.queue (shut_active m.active marked) in
      let t = shut_active-Same m.active marked in
      let p =
        end_session-Promoted (shutdown m) a i rest k now (shutdown-Inv m v)
          (s.active ∙ t.active ∙ ea) (s.queue ∙ t.queue ∙ eq) in
      let n = s.next_entry ∙ t.next_entry in
      (
        p.in_control ∙ ap some n,
        subst (λ j. ((end_session (shutdown m) a k now).entries j).cancelled ≡ false) n p.live,
        s.stopped ∙ t.stopped,
      )
