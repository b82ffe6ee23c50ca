-- ===== src/Session/Invariant.antt =====
-- What holds of the manager between two critical sections.
use mathlib.Core.Path.{subst₂}
use playgate.Common.{
  ℕ, suc, ◌≡◌, refl, sym, subst, true, false, ◌&&◌, Option, none, some, List, [], ◌∷◌, ◌++◌, arith,
  length, length-append, if_cases,
}
use playgate.Common.Int.{ℤ, pos, ◌≤ℤ◌, ◌<ℤ◌, ltb_ℤ, leb_ℤ}
use playgate.Common.Result.{Result, ok, err}
use playgate.Jwt.{Claims, JwtError}
use playgate.Session.Holders.{
  NotIn, holders_of, Good, Good-update, Good-cons, Good-snoc, Good-touch, Good-tail,
}
use playgate.Session.{
  SessionEntry, Manager, Policy, policy_queue, policy_reject, EventKind, update, emit_event, cancel,
  close_gates, set_entry, new_waiting, ClaimError,
}
use playgate.Session.Control.{vacate}
use playgate.Session.Control.{
  new_active, start_session, enqueue, claim_with, claim_locked, claim, promote, transfer_gates,
  is_active, end_session,
}

-- The depth limit, where there is one.
abbrev pub FitsDepth : ℤ → List ℕ → Type 0
FitsDepth d q = pos 0 <ℤ d → pos (length q) ≤ℤ d

depth_room :
    (d : ℤ) (q : List ℕ) (k : ℕ)
    → (ltb_ℤ (pos 0) d && leb_ℤ d (pos (length q))) ≡ false
    → FitsDepth d (q ++ k ∷ [])
depth_room d q k h p = ground (arith, length-append q (k ∷ []))

module _ {Cmd : Type 0} where
  -- The manager's state is sound: its holders are, nobody waits while control is free, and the queue
  -- keeps to its depth.
  pub record Inv (m : Manager Cmd) : Type 0 where
    pub good : Good m.next_entry m.entries m.stopped (holders_of m.active m.queue)
    pub no_wait : m.active ≡ none → m.queue ≡ []
    pub depth : FitsDepth m.cfg.max_queue_depth m.queue

  enqueue-Inv :
      (a : ℕ) (m : Manager Cmd) (c : Claims) (now : ℕ)
      → m.active ≡ some a
      → Inv m
      → FitsDepth m.cfg.max_queue_depth (m.queue ++ m.next_entry ∷ [])
      → Inv (enqueue m c now)
  unfolding enqueue emit_event
  enqueue-Inv a m c now e v room = record {
    good =
        subst
          (λ b.
            Good (suc m.next_entry) (update m.entries m.next_entry (new_waiting c)) m.stopped
              (holders_of b (m.queue ++ m.next_entry ∷ [])))
          (sym e)
          (Good-snoc (new_waiting c) (unfold new_waiting in (refl, refl))
            (subst (λ b. Good m.next_entry m.entries m.stopped (holders_of b m.queue)) e v.good));
    no_wait = λ z. cc;
    depth = room;
  }

  start_session-Inv :
      (m : Manager Cmd) (c : Claims) (now : ℕ)
      → Good m.next_entry m.entries m.stopped m.queue
      → FitsDepth m.cfg.max_queue_depth m.queue
      → Inv (start_session m c now)
  unfolding start_session emit_event new_active
  start_session-Inv m c now g d = record {
    good = Good-cons (new_active m c now) (refl, refl) g;
    no_wait = λ e. cc;
    depth = d;
  }

  pub claim_with-Inv :
      (a : Option ℕ) (p : Policy) (m : Manager Cmd) (c : Claims) (now : ℕ)
      → m.active ≡ a
      → Inv m
      → Inv (claim_with a p m c now).0
  unfolding claim_with
  claim_with-Inv none p m c now e v =
      start_session-Inv m c now
        (subst (λ a. Good m.next_entry m.entries m.stopped (holders_of a m.queue)) e v.good) v.depth
  claim_with-Inv (some a) policy_reject m c now e v = v
  claim_with-Inv (some a) policy_queue m c now e v =
      if_cases (λ (r : Manager Cmd × Result ClaimError ℕ). Inv r.0) _ _ _ (λ _. v)
        (λ room.
          enqueue-Inv a m c now e v (depth_room m.cfg.max_queue_depth m.queue m.next_entry room))

  pub claim-Inv :
      (m : Manager Cmd) (r : Result JwtError Claims) (now : ℕ) → Inv m → Inv (claim m r now).0
  unfolding claim claim_locked
  claim-Inv m (err e) now v = v
  claim-Inv m (ok c) now v =
      if_cases (λ (r : Manager Cmd × Result ClaimError ℕ). Inv r.0) _ _ _
        (λ _. claim_with-Inv m.active m.cfg.queue_policy m c now refl v) (λ _. v)

  -- Writing an entry back with the same flags is sound.
  pub set_entry-Inv :
      (m : Manager Cmd) (k : ℕ) (e : SessionEntry)
      → e.cancelled ≡ (m.entries k).cancelled
      → e.gates_done ≡ (m.entries k).gates_done
      → Inv m
      → Inv (set_entry m k e)
  unfolding set_entry
  set_entry-Inv m k e hc hg v = record {
    good = Good-touch e k hc hg v.good;
    no_wait = v.no_wait;
    depth = v.depth;
  }

  transfer_gates-Inv : (m : Manager Cmd) (i fresh : ℕ) → Inv m → Inv (transfer_gates m i fresh)
  unfolding transfer_gates
  transfer_gates-Inv m i fresh v =
      set_entry-Inv _ i _ refl refl (set_entry-Inv m fresh _ refl refl v)

  promote-Inv :
      (m : Manager Cmd) (q : List ℕ) (now : ℕ)
      → m.queue ≡ q
      → m.active ≡ none
      → Good m.next_entry m.entries m.stopped q
      → FitsDepth m.cfg.max_queue_depth q
      → Inv (promote m q now)
  unfolding promote cancel set_entry
  promote-Inv m [] now e a g d = record {
    good = subst₂ (λ b q. Good m.next_entry m.entries m.stopped (holders_of b q)) (sym a) (sym e) g;
    no_wait = λ _. e;
    depth = subst (FitsDepth m.cfg.max_queue_depth) (sym e) d;
  }
  promote-Inv m (i ∷ rest) now e a g d = transfer_gates-Inv _ i m.next_entry (
      start_session-Inv (cancel (record m { queue = rest }) i) _ now
        (Good-update _ i g.distinct.0 (Good-tail g)) (λ h. omega (arith, d h)))

  pub vacate-Good :
      (m : Manager Cmd) (i : ℕ) (k : EventKind) (now : ℕ)
      → NotIn i m.queue
      → Good m.next_entry m.entries m.stopped m.queue
      → let t = vacate m i k now in Good t.next_entry t.entries t.stopped t.queue
  unfolding vacate close_gates cancel set_entry emit_event
  vacate-Good m i k now h g = Good-update _ i h (Good-update _ i h (Good-update _ i h g))

  pub vacate_same :
      (m : Manager Cmd) (i : ℕ) (k : EventKind) (now : ℕ)
      → let t = vacate m i k now in (t.queue ≡ m.queue) × (t.active ≡ none) × (t.cfg ≡ m.cfg)
  unfolding vacate close_gates cancel set_entry emit_event
  vacate_same m i k now = (refl, refl, refl)

  pub is_active-true : (m : Manager Cmd) (i : ℕ) → is_active m i ≡ true → m.active ≡ some i
  unfolding is_active
  is_active-true m i h = ground arith

  -- The holders behind a known active entry.
  pub Good-of-active :
      (m : Manager Cmd) (a : Option ℕ)
      → m.active ≡ a
      → Inv m
      → Good m.next_entry m.entries m.stopped (holders_of a m.queue)
  Good-of-active m a e v =
      subst (λ b. Good m.next_entry m.entries m.stopped (holders_of b m.queue)) e v.good

  pub end_session-Inv :
      (m : Manager Cmd) (i : ℕ) (k : EventKind) (now : ℕ) → Inv m → Inv (end_session m i k now)
  unfolding end_session
  end_session-Inv m i k now v = if_cases Inv (is_active m i) _ m ended (λ _. v)
    where
      ended : is_active m i ≡ true → Inv (promote (vacate m i k now) (vacate m i k now).queue now)
      ended a =
          let g = Good-of-active m (some i) (is_active-true m i a) v in
          let (q, free, c) = vacate_same m i k now in
          promote-Inv (vacate m i k now) _ now refl free
            (vacate-Good m i k now g.distinct.0 (Good-tail g)) (rw (q, c) v.depth)
