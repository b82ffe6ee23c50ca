-- ===== src/Session/Fifo.antt =====
-- The manager as a plain queue of claims: who holds control, then who waits, in order.
use mathlib.Core.Path.{ap₂}
use mathlib.Core.List.{map-append}
use playgate.Common.{
  ℕ, zero, suc, ◌≡◌, refl, sym, ◌∙◌, ap, subst, inl, inr, true, ◌&&◌, Option, none, some, List, [],
  ◌∷◌, ◌++◌, map, drop, length, if◌then◌else◌, arith, Bool-cases,
}
use playgate.Common.Int.{ℤ, pos, ltb_ℤ, leb_ℤ}
use playgate.Common.Result.{Result, ok, err}
use playgate.Jwt.{Claims}
use playgate.Session.Holders.{
  NotIn, NotIn-of_below, holders_of, Good, Good-tail, update_self, update_ne, update_same,
}
use playgate.Session.Invariant.{
  Inv, claim_with-Inv, is_active-true, Good-of-active, vacate-Good, vacate_same,
}
use playgate.Session.Steps.{kick-Inv}
use playgate.Session.{
  Policy, policy_queue, policy_reject, SessionEntry, Manager, EventKind, idle_kicked, ClaimError,
  controller_active, queue_full, update, emit_event, cancel, close_gates, set_entry, new_waiting,
}
use playgate.Session.Control.{vacate}
use playgate.Session.Control.{
  new_active, start_session, enqueue, claim_with, claim_locked, promote, transfer_gates, is_active,
  end_session, kick_with, kick,
}

-- What the viewers are promised: a claim joins the end of the queue, or is refused.
pub data Outcome : Type 0 where
  admitted : Outcome
  refused : ClaimError → Outcome

pub offer : Policy → ℤ → List Claims → Claims → List Claims × Outcome
offer p depth [] c = (c ∷ [], admitted)
offer policy_reject depth (a ∷ waiting) c = (a ∷ waiting, refused controller_active)
offer policy_queue depth (a ∷ waiting) c =
    if ltb_ℤ (pos 0) depth && leb_ℤ depth (pos (length waiting))
    then (a ∷ waiting, refused queue_full)
    else (a ∷ waiting ++ c ∷ [], admitted)

abbrev pub outcome : Result ClaimError ℕ → Outcome
outcome (ok i) = admitted
outcome (err e) = refused e

abbrev pub claims_of : (ℕ → SessionEntry) → List ℕ → List Claims
claims_of es = map (λ i. (es i).claims)

claims_of_same :
    (es es' : ℕ → SessionEntry) (is : List ℕ)
    → ((i : ℕ) → (es' i).claims ≡ (es i).claims)
    → claims_of es' is ≡ claims_of es is
claims_of_same es es' is h = λ k. map (λ i. h i k) is

claims_of-update :
    (es : ℕ → SessionEntry) (k : ℕ) (e : SessionEntry) (is : List ℕ)
    → NotIn k is
    → claims_of (update es k e) is ≡ claims_of es is
claims_of-update es k e [] h = refl
claims_of-update es k e (i ∷ is) h =
    ap₂ (λ (x : SessionEntry) xs. x.claims ∷ xs) (update_ne es k i e h.0)
      (claims_of-update es k e is h.1)

drop-drop : (n : ℕ) (xs : List Claims) → drop n (drop 1 xs) ≡ drop (suc n) xs
drop-drop zero [] = refl
drop-drop (suc n) [] = refl
drop-drop n (x ∷ xs) = refl

drop_all : (xs : List Claims) (c : Claims) → drop (length xs) (xs ++ c ∷ []) ≡ c ∷ []
drop_all [] c = refl
drop_all (x ∷ xs) c = drop_all xs c

offer_admitted :
    (p : Policy) (d : ℤ) (vs : List Claims) (c : Claims)
    → (offer p d vs c).1 ≡ admitted
    → (offer p d vs c).0 ≡ vs ++ c ∷ []
unfolding offer
offer_admitted p d [] c h = refl
offer_admitted policy_reject d (a ∷ vs) c h = cc
offer_admitted policy_queue d (a ∷ vs) c h = ground arith

length-claims_of : (es : ℕ → SessionEntry) (is : List ℕ) → length (claims_of es is) ≡ length is
length-claims_of es [] = refl
length-claims_of es (i ∷ is) = ap suc (length-claims_of es is)

module _ {Cmd : Type 0} where
  -- The claims in control and in the queue.
  abbrev pub view : Manager Cmd → List Claims
  view m = claims_of m.entries (holders_of m.active m.queue)

  view_at :
      (m : Manager Cmd) (a : Option ℕ)
      → m.active ≡ a
      → view m ≡ claims_of m.entries (holders_of a m.queue)
  view_at m a e = ap (λ b. claims_of m.entries (holders_of b m.queue)) e

  view-start_session :
      (m : Manager Cmd) (c : Claims) (now : ℕ)
      → NotIn m.next_entry m.queue
      → view (start_session m c now) ≡ c ∷ claims_of m.entries m.queue
  unfolding start_session emit_event
  view-start_session m c now h =
      ap₂ (λ (x : SessionEntry) xs. x.claims ∷ xs)
        (update_self m.entries m.next_entry (new_active m c now))
        (claims_of-update m.entries m.next_entry _ m.queue h)
      ∙ ap (λ x. x ∷ claims_of m.entries m.queue) (unfold new_active in refl)

  view-enqueue :
      (m : Manager Cmd) (a : ℕ) (c : Claims) (now : ℕ)
      → m.active ≡ some a
      → Inv m
      → view (enqueue m c now) ≡ (m.entries a).claims ∷ claims_of m.entries m.queue ++ c ∷ []
  unfolding enqueue emit_event
  view-enqueue m a c now e v =
      view_at (enqueue m c now) (some a) e
      ∙ (map-append (λ j. ((enqueue m c now).entries j).claims) (a ∷ m.queue) (m.next_entry ∷ [])
          ∙ ap₂ (λ xs (x : SessionEntry). xs ++ x.claims ∷ [])
              (claims_of-update m.entries m.next_entry (new_waiting c) (a ∷ m.queue) (
                NotIn-of_below m.next_entry (a ∷ m.queue)
                  (Good-of-active m (some a) e v).allocated))
              (update_self m.entries m.next_entry (new_waiting c))
          ∙ unfold new_waiting in refl)

  -- The state and the outcome of a claim, against those of an offer to the queue `vs`.
  abbrev Agrees :
      Policy → Manager Cmd → List Claims → Claims → Manager Cmd × Result ClaimError ℕ → Type 0
  Agrees p m vs c r =
      (view r.0 ≡ (offer p m.cfg.max_queue_depth vs c).0)
      × (outcome r.1 ≡ (offer p m.cfg.max_queue_depth vs c).1)

  claim_with-offer :
      (a : Option ℕ) (p : Policy) (m : Manager Cmd) (c : Claims) (now : ℕ)
      → m.active ≡ a
      → Inv m
      → Agrees p m (claims_of m.entries (holders_of a m.queue)) c (claim_with a p m c now)
  unfolding claim_with offer
  claim_with-offer none p m c now e v =
      let empty = v.no_wait e in
      let below = subst (NotIn m.next_entry) (sym empty) tt in
      subst (λ q. Agrees p m (claims_of m.entries q) c (start_session m c now, ok m.next_entry))
        (sym empty)
        (view-start_session m c now below ∙ ap (λ q. c ∷ claims_of m.entries q) empty, refl)
  claim_with-offer (some a) policy_reject m c now e v = (view_at m (some a) e, refl)
  claim_with-offer (some a) policy_queue m c now e v =
      rw (length-claims_of m.entries m.queue)
        (elim (Bool-cases (
          ltb_ℤ (pos 0) m.cfg.max_queue_depth
          && leb_ℤ m.cfg.max_queue_depth (pos (length m.queue)))) [
            | inl full ↦ rw full (view_at m (some a) e, refl)
            | inr room ↦ rw room (view-enqueue m a c now e v, refl)
          ])

  -- In a sound state, `Claim` under the lock does to the queue of claims what an offer does, and
  -- has its outcome.
  pub claim_locked-offer :
      (m : Manager Cmd) (c : Claims) (now : ℕ)
      → Inv m
      → (view (claim_locked m c now).0
          ≡ (offer m.cfg.queue_policy m.cfg.max_queue_depth (view m) c).0)
        × (outcome (claim_locked m c now).1
            ≡ (offer m.cfg.queue_policy m.cfg.max_queue_depth (view m) c).1)
  unfolding claim_locked
  claim_locked-offer m c now v = claim_with-offer m.active m.cfg.queue_policy m c now refl v

  set_entry_claims :
      (m : Manager Cmd) (k : ℕ) (e : SessionEntry) (j : ℕ)
      → e.claims ≡ (m.entries k).claims
      → ((set_entry m k e).entries j).claims ≡ (m.entries j).claims
  unfolding set_entry
  set_entry_claims m k e j h = update_same (λ (x : SessionEntry). x.claims) m.entries k e j h

  transfer_view : (m : Manager Cmd) (i fresh : ℕ) → view (transfer_gates m i fresh) ≡ view m
  unfolding transfer_gates
  transfer_view m i fresh =
      let old : SessionEntry = m.entries i in
      let new : SessionEntry = m.entries fresh in
      let given = set_entry m fresh (record new { gates = old.gates }) in
      unfold set_entry in
      claims_of_same m.entries (transfer_gates m i fresh).entries (holders_of m.active m.queue)
        λ j. set_entry_claims given i _ j refl ∙ set_entry_claims m fresh _ j refl

  view-promote :
      (m : Manager Cmd) (q : List ℕ) (now : ℕ)
      → m.queue ≡ q
      → m.active ≡ none
      → Good m.next_entry m.entries m.stopped q
      → view (promote m q now) ≡ claims_of m.entries q
  unfolding promote cancel set_entry
  view-promote m [] now e a g = view_at m none a ∙ ap (claims_of m.entries) e
  view-promote m (i ∷ rest) now e a g =
      transfer_view _ i m.next_entry
      ∙ view-start_session (cancel (record m { queue = rest }) i) (m.entries i).claims now
          (NotIn-of_below m.next_entry rest g.allocated.1)
      ∙ ap (λ xs. (m.entries i).claims ∷ xs)
          (claims_of_same m.entries (cancel (record m { queue = rest }) i).entries rest
            (λ j. set_entry_claims (record m { queue = rest }) i _ j refl))

  vacate_view :
      (m : Manager Cmd) (i : ℕ) (k : EventKind) (now : ℕ) (is : List ℕ)
      → claims_of (vacate m i k now).entries is ≡ claims_of m.entries is
  unfolding vacate close_gates cancel emit_event set_entry
  vacate_view m i k now is =
      let e : SessionEntry = m.entries i in
      let unarmed = set_entry m i (record e { idle_timer = none }) in
      claims_of_same m.entries (vacate m i k now).entries is λ j.
        set_entry_claims (cancel unarmed i) i _ j refl
        ∙ (set_entry_claims unarmed i _ j refl ∙ set_entry_claims m i _ j refl)

  -- Ending the session in control passes control to the longest waiter: the queue loses its head.
  end_active_view :
      (m : Manager Cmd) (i : ℕ) (k : EventKind) (now : ℕ)
      → is_active m i ≡ true
      → Inv m
      → view (end_session m i k now) ≡ claims_of m.entries m.queue
  unfolding end_session
  end_active_view m i k now a v =
      let g = Good-of-active m (some i) (is_active-true m i a) v in
      let (q, free, _) = vacate_same m i k now in
      rw a (
        view-promote (vacate m i k now) _ now refl free
          (vacate-Good m i k now g.distinct.0 (Good-tail g))
        ∙ vacate_view m i k now (vacate m i k now).queue
        ∙ ap (claims_of m.entries) q)

  view-kick_with :
      (a : Option ℕ) (m : Manager Cmd) (now : ℕ)
      → m.active ≡ a
      → Inv m
      → view (kick_with a m now) ≡ drop 1 (claims_of m.entries (holders_of a m.queue))
  unfolding kick_with
  view-kick_with none m now e v =
      view_at m none e
      ∙ ap (claims_of m.entries) (v.no_wait e)
      ∙ ap (λ q. drop 1 (claims_of m.entries q)) (sym (v.no_wait e))
  view-kick_with (some i) m now e v =
      end_active_view m i idle_kicked now (unfold is_active in ground arith) v

  -- Kicking whoever is in control hands control to the longest waiter, and moves the others up.
  view-kick : (m : Manager Cmd) (now : ℕ) → Inv m → view (kick m now) ≡ drop 1 (view m)
  unfolding kick
  view-kick m now v = view-kick_with m.active m now refl v

  pub kicks : ℕ → Manager Cmd → ℕ → Manager Cmd
  kicks zero m now = m
  kicks (suc n) m now = kicks n (kick m now) now

  -- From a sound state, once n sessions in control have been kicked, control and the queue are what
  -- stood behind the first n claims: a waiter comes to control after exactly as many kicks as there
  -- were claims before his.
  pub view-kicks :
      (n : ℕ) (m : Manager Cmd) (now : ℕ) → Inv m → view (kicks n m now) ≡ drop n (view m)
  unfolding kicks
  view-kicks zero m now v = refl
  view-kicks (suc n) m now v =
      view-kicks n (kick m now) now (kick-Inv m now v)
      ∙ ap (drop n) (view-kick m now v)
      ∙ drop-drop n (view m)

  -- In a sound state, a claim that finds m claims before it and is let in comes to control after m
  -- kicks.
  pub claim_locked-served :
      (m : Manager Cmd) (c : Claims) (now : ℕ) {i : ℕ}
      → Inv m
      → (claim_locked m c now).1 ≡ ok i
      → view (kicks (length (view m)) (claim_locked m c now).0 now) ≡ c ∷ []
  claim_locked-served m c now v h =
      let after : Inv (claim_locked m c now).0 =
        unfold claim_locked in claim_with-Inv m.active m.cfg.queue_policy m c now refl v in
      let (same, said) = claim_locked-offer m c now v in
      view-kicks (length (view m)) (claim_locked m c now).0 now after
      ∙ ap (drop (length (view m))) (
          same
          ∙ offer_admitted m.cfg.queue_policy m.cfg.max_queue_depth (view m) c
              (sym said ∙ ap outcome h))
      ∙ drop_all (view m) c
