-- ===== src/Session/Gating.antt =====
-- What a gate forwards, and what the end of a session does to its gates.
use playgate.Common.{
  ℕ, ◌<◌, ◌≡◌, ◌⊎◌, ◌++◌, length, ltb, eq_iff, String, false, if_cases, refl, sym, ◌∙◌, ap, subst,
  ◌≢◌, true, Option, none, some, List, [], ◌∷◌, All, arith, Option-cases, inl, inr, Bool-cases,
}
use playgate.Session.Holders.{update_self, update_ne, update_same}
use playgate.Session.{
  SessionEntry, GateHandle, Manager, EventKind, update, try_send, gate_cap, emit_event, cancel,
  close_gates, close_handle, close_handles, set_entry,
}
use playgate.Session.Steps.{Reach, here, next, touches, delivers}
use playgate.Session.Control.{vacate}
use playgate.Session.Control.{start_session, promote, transfer_gates, is_active, end_session}
use playgate.Session.Gates.{touch_found, deliver, gate_receive, find_entry, holds_control}

try_send_cases {ℓ} :
    {A : Type ℓ} (cap : ℕ) (buffer : List A) (x : A)
    → ((length buffer < cap) × (try_send cap buffer x ≡ buffer ++ x ∷ []))
      ⊎ (¬ (length buffer < cap) × (try_send cap buffer x ≡ buffer))
unfolding try_send
try_send_cases cap buffer x = elim (Bool-cases (ltb (length buffer) cap)) [
  | inl t ↦ inl (ground (arith, t), rw t refl)
  | inr f ↦ inr ((λ h. ground (arith, f, h)), rw f refl)
]

module _ {Cmd : Type 0} where
  -- Closing a handle closes it, and opens none.
  close_handle_keeps :
      (f : ℕ → GateHandle Cmd) (h j : ℕ) → (f j).closed ≡ true → (close_handle f h j).closed ≡ true
  unfolding close_handle update
  close_handle_keeps f h j e = ground arith

  close_handles_keep :
      (hs : List ℕ) (f : ℕ → GateHandle Cmd) (j : ℕ)
      → (f j).closed ≡ true
      → (close_handles f hs j).closed ≡ true
  unfolding close_handles
  close_handles_keep [] f j e = e
  close_handles_keep (h ∷ hs) f j e =
      close_handles_keep hs (close_handle f h) j (close_handle_keeps f h j e)

  close_handles-All :
      (hs : List ℕ) (f : ℕ → GateHandle Cmd) → All (λ h. (close_handles f hs h).closed ≡ true) hs
  unfolding close_handles
  close_handles-All [] f = tt
  close_handles-All (h ∷ hs) f = (
    close_handles_keep hs (close_handle f h) h (unfold close_handle update in ground arith),
    close_handles-All hs (close_handle f h),
  )

  promote_handles : (m : Manager Cmd) (q : List ℕ) (now : ℕ) → (promote m q now).handles ≡ m.handles
  unfolding promote transfer_gates set_entry start_session emit_event cancel
  promote_handles m [] now = refl
  promote_handles m (i ∷ rest) now = refl

  vacate_handles :
      (m : Manager Cmd) (i : ℕ) (k : EventKind) (now : ℕ)
      → (vacate m i k now).handles ≡ close_handles m.handles (m.entries i).gates
  unfolding vacate close_gates cancel set_entry emit_event
  vacate_handles m i k now = ap (close_handles m.handles) (
      update_same (λ (x : SessionEntry). x.gates) _ i _ i refl
      ∙ update_same (λ (x : SessionEntry). x.gates) m.entries i _ i refl)

  -- When the session in control ends, in whatever way, every gate that was registered to it is closed.
  pub end_session_closes :
      (m : Manager Cmd) (i : ℕ) (k : EventKind) (now : ℕ)
      → is_active m i ≡ true
      → All (λ h. ((end_session m i k now).handles h).closed ≡ true) (m.entries i).gates
  unfolding end_session
  end_session_closes m i k now a =
      let told = vacate m i k now in
      let same : (end_session m i k now).handles ≡ close_handles m.handles (m.entries i).gates =
        rw a (promote_handles told told.queue now ∙ vacate_handles m i k now) in
      subst (λ f. All (λ h. (f h).closed ≡ true) (m.entries i).gates) (sym same)
        (close_handles-All (m.entries i).gates m.handles)

  -- The manager as a gate looks who is in control, and as it forwards.
  abbrev pub at_test : (ℕ → Manager Cmd → Manager Cmd) → Manager Cmd → ℕ → ℕ → Manager Cmd
  at_test others m h now =
      let m0 = others 0 m in
      others 2 (touch_found (others 1 m0) (find_entry m0 (m.handles h).viewer_id) now)

  abbrev pub at_send : (ℕ → Manager Cmd → Manager Cmd) → Manager Cmd → ℕ → ℕ → Manager Cmd
  at_send others m h now = others 3 (at_test others m h now)

  -- The viewer `v` was in control, and then the handle open with room in its channel.
  pub record Passes (tested sent : Manager Cmd) (v : String) (h : ℕ) : Type 0 where
    pub holder : ℕ
    pub in_control : tested.active ≡ some holder
    pub viewer : (tested.entries holder).viewer_id ≡ v
    pub is_open : (sent.handles h).closed ≡ false
    pub has_room : length (sent.handles h).out < gate_cap

  holds_control-true :
      (m : Manager Cmd) (v : String)
      → holds_control m v ≡ true
      → (a : ℕ) × (m.active ≡ some a) × ((m.entries a).viewer_id ≡ v)
  unfolding holds_control
  holds_control-true m v h = elim (Option-cases m.active) [
    | inl e ↦ absurd (let f = rw e at h in cc)
    | inr (a, e) ↦ (a, e, (eq_iff (m.entries a).viewer_id v).0 (rw e at h))
  ]

  holds_control-of :
      (m : Manager Cmd) (v : String) (a : ℕ)
      → m.active ≡ some a
      → (m.entries a).viewer_id ≡ v
      → holds_control m v ≡ true
  unfolding holds_control
  holds_control-of m v a e o = rw e ((eq_iff (m.entries a).viewer_id v).1 o)

  deliver_open :
      (m : Manager Cmd) (h : ℕ) (cmd : Cmd)
      → (m.handles h).closed ≡ false
      → ((deliver m h cmd).handles h).out ≡ try_send gate_cap (m.handles h).out cmd
  unfolding deliver
  deliver_open m h cmd e = rw e (ap (λ (x : GateHandle Cmd). x.out) (update_self m.handles h _))

  deliver_shut :
      (m : Manager Cmd) (h : ℕ) (cmd : Cmd) → (m.handles h).closed ≡ true → deliver m h cmd ≡ m
  unfolding deliver
  deliver_shut m h cmd e = rw e refl

  deliver_rest :
      (m : Manager Cmd) (h : ℕ) (cmd : Cmd)
      → (((deliver m h cmd).handles h).closed ≡ (m.handles h).closed)
        × ((j : ℕ) → j ≢ h → (deliver m h cmd).handles j ≡ m.handles j)
        × ((deliver m h cmd).active ≡ m.active)
        × ((deliver m h cmd).queue ≡ m.queue)
  unfolding deliver
  deliver_rest m h cmd = elim (Bool-cases (m.handles h).closed) [
    | inl e ↦ rw e (e, (λ j ne. refl), refl, refl)
    | inr e ↦ rw e (
      ap (λ (x : GateHandle Cmd). x.closed) (update_self m.handles h _),
      (λ j ne. update_ne m.handles h j _ ne),
      refl,
      refl,
    )
  ]

  forwarded :
      (tested sent : Manager Cmd) (v : String) (h : ℕ) (cmd : Cmd) (a : ℕ)
      → tested.active ≡ some a
      → (tested.entries a).viewer_id ≡ v
      → (Passes tested sent v h
          × (((deliver sent h cmd).handles h).out ≡ (sent.handles h).out ++ cmd ∷ []))
        ⊎ (¬ Passes tested sent v h × (((deliver sent h cmd).handles h).out ≡ (sent.handles h).out))
  forwarded tested sent v h cmd a active owner = elim (Bool-cases (sent.handles h).closed) [
    | inl shut ↦ inr (
      (λ p. absurd (let q = p.is_open in cc)),
      ap (λ (x : Manager Cmd). (x.handles h).out) (deliver_shut sent h cmd shut),
    )
    | inr open_handle ↦ elim (try_send_cases gate_cap (sent.handles h).out cmd) [
      | inl (room, e) ↦ inl (
        record {
          holder = a;
          in_control = active;
          viewer = owner;
          is_open = open_handle;
          has_room = room;
        },
        deliver_open sent h cmd open_handle ∙ e,
      )
      | inr (full, e) ↦ inr ((λ p. full p.has_room), deliver_open sent h cmd open_handle ∙ e)
    ]
  ]

  -- A command that a gate receives, whatever happens to the manager between the gate's critical
  -- sections: it is appended to the gate's own channel exactly if the gate's viewer is in control as the
  -- gate looks who is, and as it forwards the handle is open and its channel below capacity; else the
  -- channel stays as it is. No other channel changes by the forwarding, and neither do control and the
  -- queue.
  pub gate_receive_lem :
      (others : ℕ → Manager Cmd → Manager Cmd) (m : Manager Cmd) (h : ℕ) (cmd : Cmd) (now : ℕ)
      → let r = gate_receive others m h cmd now in
        let tested = at_test others m h now in
        let sent = at_send others m h now in
        let v = (m.handles h).viewer_id in
        ((Passes tested sent v h × ((r.handles h).out ≡ (sent.handles h).out ++ cmd ∷ []))
          ⊎ (¬ Passes tested sent v h × ((r.handles h).out ≡ (sent.handles h).out)))
        × ((r.handles h).closed ≡ (sent.handles h).closed)
        × ((j : ℕ) → j ≢ h → r.handles j ≡ sent.handles j)
        × (r.active ≡ sent.active)
        × (r.queue ≡ sent.queue)
  unfolding gate_receive
  gate_receive_lem others m h cmd now =
      let tested = at_test others m h now in
      let sent = at_send others m h now in
      let v = (m.handles h).viewer_id in
      elim (Bool-cases (holds_control tested v)) [
        | inl holds ↦
            let (a, active, owner) = holds_control-true tested v holds in
            let (closed, rest, act, queue) = deliver_rest sent h cmd in
            rw holds (forwarded tested sent v h cmd a active owner, closed, rest, act, queue)
        | inr idle ↦ rw idle (
          inr (
            (λ p. absurd (let t = holds_control-of tested v p.holder p.in_control p.viewer in cc)),
            refl,
          ),
          refl,
          (λ j ne. refl),
          refl,
          refl,
        )
      ]

  -- The rounds of a gate are critical sections among others.
  Reach-append : {m n o : Manager Cmd} → Reach m n → Reach n o → Reach m o
  Reach-append p here = p
  Reach-append p (next q s) = next (Reach-append p q) s

  touch_found-Reach : (m : Manager Cmd) (o : Option ℕ) (now : ℕ) → Reach m (touch_found m o now)
  unfolding touch_found
  touch_found-Reach m none now = here
  touch_found-Reach m (some i) now = next here (touches i now)

  -- Where all that happens between a gate's critical sections are critical sections, a round of the gate
  -- is a sequence of critical sections.
  pub gate_receive-Reach :
      (others : ℕ → Manager Cmd → Manager Cmd) (m : Manager Cmd) (h : ℕ) (cmd : Cmd) (now : ℕ)
      → ((i : ℕ) (n : Manager Cmd) → Reach n (others i n))
      → Reach m (gate_receive others m h cmd now)
  unfolding gate_receive
  gate_receive-Reach others m h cmd now steps =
      let m0 = others 0 m in
      let v = (m.handles h).viewer_id in
      let tested = at_test others m h now in
      let sent = at_send others m h now in
      let r =
        Reach-append
          (Reach-append
            (Reach-append
              (Reach-append (Reach-append (steps 0 m) (steps 1 m0))
                (touch_found-Reach (others 1 m0) (find_entry m0 v) now))
              (steps 2 _))
            (steps 3 tested))
          here in
      if_cases (Reach m) (holds_control tested v) (deliver sent h cmd) sent
        (λ _. next r (delivers h cmd)) (λ _. r)
