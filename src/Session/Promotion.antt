-- ===== src/Session/Promotion.antt =====
-- What a promotion does to the session that `Claim` returned while its viewer waited.
use playgate.Common.{
  ℕ, ◌<◌, ◌≡◌, refl, sym, ◌∙◌, ap, subst, ◌≢◌, true, false, some, List, [], ◌∷◌, arith,
}
use playgate.Session.Holders.{NotIn, Good}
use playgate.Session.Invariant.{Inv, Good-of-active, vacate_same}
use playgate.Session.{
  SessionEntry, Manager, EventKind, update, emit_event, cancel, close_gates, set_entry, contains,
}
use playgate.Session.Control.{vacate}
use playgate.Session.Control.{
  new_active, start_session, promote, transfer_gates, is_active, end_session, release,
}

contains_of_NotIn : (i : ℕ) (is : List ℕ) → NotIn i is → contains i is ≡ false
unfolding contains
contains_of_NotIn i [] h = refl
contains_of_NotIn i (j ∷ is) h = ground (arith, contains_of_NotIn i is h.1)

module _ {Cmd : Type 0} where
  -- The state that a promotion of the entry `i` leaves, seen from the state `m` before it.
  pub record Promoted (m : Manager Cmd) (i : ℕ) (rest : List ℕ) (r : Manager Cmd) : Type 0 where
    pub in_control : r.active ≡ some m.next_entry
    pub behind : r.queue ≡ rest
    pub same_claims : (r.entries m.next_entry).claims ≡ (m.entries i).claims
    pub live : (r.entries m.next_entry).cancelled ≡ false
    pub gates_moved : (r.entries m.next_entry).gates ≡ (m.entries i).gates
    pub old_cancelled : (r.entries i).cancelled ≡ true

  promote-Promoted :
      (m : Manager Cmd) (i : ℕ) (rest : List ℕ) (now : ℕ)
      → i < m.next_entry
      → Promoted m i rest (promote m (i ∷ rest) now)
  unfolding promote transfer_gates start_session emit_event cancel set_entry new_active update
  promote-Promoted m i rest now h = ground arith

  vacate_other :
      (m : Manager Cmd) (a i : ℕ) (k : EventKind) (now : ℕ)
      → i ≢ a
      → (vacate m a k now).entries i ≡ m.entries i
  unfolding vacate close_gates cancel set_entry emit_event update
  vacate_other m a i k now h = ground arith

  vacate_next :
      (m : Manager Cmd) (a : ℕ) (k : EventKind) (now : ℕ)
      → (vacate m a k now).next_entry ≡ m.next_entry
  unfolding vacate close_gates cancel set_entry emit_event
  vacate_next m a k now = refl

  is_active_of : (m : Manager Cmd) (i : ℕ) → m.active ≡ some i → is_active m i ≡ true
  unfolding is_active
  is_active_of m i e = ground arith

  -- In a sound state, when the session in control ends while others wait, the head of the queue
  -- gets control at once, with its claims and its gates, in a live entry; and the entry that it
  -- waited in is cancelled.
  pub end_session-Promoted :
      (m : Manager Cmd) (a i : ℕ) (rest : List ℕ) (k : EventKind) (now : ℕ)
      → Inv m
      → m.active ≡ some a
      → m.queue ≡ i ∷ rest
      → Promoted m i rest (end_session m a k now)
  unfolding end_session vacate set_entry emit_event close_gates cancel
  end_session-Promoted m a i rest k now v ea eq =
      let (q, _, _) = vacate_same m a k now in
      let g =
        subst (λ q. Good m.next_entry m.entries m.stopped (a ∷ q)) eq
          (Good-of-active m (some a) ea v) in
      let other = vacate_other m a i k now g.distinct.0.0 in
      let n = vacate_next m a k now in
      let p = promote-Promoted (vacate m a k now) i rest now (rw n g.allocated.1.0) in
      let branch : end_session m a k now ≡ promote (vacate m a k now) (i ∷ rest) now =
        rw (is_active_of m a ea) (ap (λ q. promote (vacate m a k now) q now) (q ∙ eq)) in
      subst (Promoted m i rest) (sym branch) (record {
        in_control = p.in_control ∙ ap some n;
        behind = p.behind;
        same_claims = (p.same_claims ∙ ap (λ (x : SessionEntry). x.claims) other);
        live = p.live;
        gates_moved = (p.gates_moved ∙ ap (λ (x : SessionEntry). x.gates) other);
        old_cancelled = p.old_cancelled;
      })

  release_stranger :
      (m : Manager Cmd) (a i now : ℕ)
      → m.active ≡ some a
      → a ≢ i
      → NotIn i m.queue
      → release m i now ≡ m
  unfolding release is_active
  release_stranger m a i now e h away = ground (arith, contains_of_NotIn i m.queue away)

  -- In a sound state, the session that `Claim` returned to a viewer who had to wait is dead from
  -- the moment he gets control: its context is cancelled, and releasing it changes nothing, so that
  -- control stays taken.
  pub promoted_session_is_dead :
      (m : Manager Cmd) (a i : ℕ) (rest : List ℕ) (k : EventKind) (now later : ℕ)
      → Inv m
      → m.active ≡ some a
      → m.queue ≡ i ∷ rest
      → let r = end_session m a k now in
        ((r.entries i).cancelled ≡ true)
        × (r.active ≡ some m.next_entry)
        × ((r.entries m.next_entry).claims ≡ (m.entries i).claims)
        × (release r i later ≡ r)
  promoted_session_is_dead m a i rest k now later v ea eq =
      let p = end_session-Promoted m a i rest k now v ea eq in
      let g =
        subst (λ q. Good m.next_entry m.entries m.stopped (a ∷ q)) eq
          (Good-of-active m (some a) ea v) in
      (
        p.old_cancelled,
        p.in_control,
        p.same_claims,
        release_stranger (end_session m a k now) m.next_entry i later p.in_control
            (λ e. absurd (omega (arith, g.allocated.1.0, e)))
            (subst (NotIn i) (sym p.behind) g.distinct.1.0),
      )
