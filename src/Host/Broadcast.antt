-- ===== src/Host/Broadcast.antt =====
-- What a viewer gets of the broadcast.
use playgate.Common.{
  ℕ, ◌≡◌, ◌≢◌, ◌∙◌, inl, inr, refl, sym, ap, Bool, true, false, not, ◌&&◌, Option, some, List, [],
  ◌∷◌, ◌++◌, append_assoc, append-nil, map, ◌==◌, if◌then◌else◌, if_cases, Bool-cases, All, arith,
}
use playgate.Common.Int.{ℤ, pos, ◌≤ℤ◌, leb_ℤ, sub64}
use playgate.Core.{EncodedPacket}
use playgate.Rtc.{write_sample, sample_duration, default_sample_duration}
use playgate.Host.Router.{
  Sink, VideoRouter, find_sink, is_found, add_sink, delete_sink, remove_sink, deliver, forward,
}

-- A packet of the encoder, a viewer that comes, and one that goes.
pub data RouterEvent (Axis : Type 0) : Type 0 where
  packet : EncodedPacket → RouterEvent Axis
  joins : Sink Axis → RouterEvent Axis
  leaves : ℕ → RouterEvent Axis

-- Packets with their durations.
unfoldable pub timed : ℤ → Bool → List EncodedPacket → List (EncodedPacket × ℤ)
timed prev have [] = []
timed prev have (p ∷ ps) = (p, sample_duration p.pts prev have) ∷ timed p.pts true ps

abbrev pub sample_of : EncodedPacket × ℤ → List ℕ × ℤ
sample_of q = (q.0.payload, q.1)

-- What is left from the first keyframe on.
unfoldable pub from_keyframe : List (EncodedPacket × ℤ) → List (List ℕ × ℤ)
from_keyframe [] = []
from_keyframe ((p, d) ∷ ps) =
    let rest = from_keyframe ps in
    if p.is_keyframe then sample_of (p, d) ∷ map sample_of ps else rest

other : (k i j : ℕ) → j ≢ i → (k == j) ≡ true → (k == i) ≡ false
other k i j n t = ground arith

module _ {Axis : Type 0} where
  unfoldable pub router_step : VideoRouter Axis → RouterEvent Axis → VideoRouter Axis
  unfolding forward add_sink remove_sink
  router_step r (packet p) = forward r p
  router_step r (joins s) = add_sink r s
  router_step r (leaves i) = remove_sink r i

  unfoldable pub router_run : VideoRouter Axis → List (RouterEvent Axis) → VideoRouter Axis
  unfolding router_step
  router_run r [] = r
  router_run r (e ∷ es) = router_run (router_step r e) es

  abbrev pub packets : List (RouterEvent Axis) → List EncodedPacket
  packets [] = []
  packets (packet p ∷ es) = p ∷ packets es
  packets (joins s ∷ es) = packets es
  packets (leaves i ∷ es) = packets es

  -- The viewer itself does not go.
  abbrev pub Stays : ℕ → RouterEvent Axis → Type 0
  Stays i (packet p) = Unit
  Stays i (joins s) = Unit
  Stays i (leaves j) = j ≢ i

  -- The deliveries to one sink.
  unfoldable deliver_all : List (EncodedPacket × ℤ) → Sink Axis → Sink Axis
  unfolding deliver
  deliver_all [] s = s
  deliver_all ((p, d) ∷ ps) s = deliver_all ps (deliver p d s)

  passed_over :
      (b : Bool) (x s : Sink Axis) (rest : Option (Sink Axis))
      → b ≡ false
      → (if b then some x else rest) ≡ some s
      → rest ≡ some s
  passed_over true x s rest f e = absurd cc
  passed_over false x s rest f e = e

  -- The search for a sink goes on after a change behind its first one.
  find_next :
      (f : Sink Axis → Sink Axis) (b : Bool) (x s : Sink Axis) (rest rest' : Option (Sink Axis))
      → (if b then some x else rest) ≡ some s
      → (rest ≡ some s → rest' ≡ some (f s))
      → (if b then some (f x) else rest') ≡ some (f s)
  find_next f true x s rest rest' e h = let same : x ≡ s = cc in ap (λ y. some (f y)) same
  find_next f false x s rest rest' e h = h e

  find_sink-deliver :
      (p : EncodedPacket) (d : ℤ) (i : ℕ) (ss : List (Sink Axis)) (s : Sink Axis)
      → find_sink ss i ≡ some s
      → find_sink (map (deliver p d) ss) i ≡ some (deliver p d s)
  unfolding find_sink deliver
  find_sink-deliver p d i [] s e = absurd cc
  find_sink-deliver p d i (x ∷ ss) s e =
      find_next (deliver p d) (x.id == i) x s (find_sink ss i) _ e (find_sink-deliver p d i ss s)

  find_sink-append :
      (i : ℕ) (ss tail : List (Sink Axis)) (s : Sink Axis)
      → find_sink ss i ≡ some s
      → find_sink (ss ++ tail) i ≡ some s
  unfolding find_sink
  find_sink-append i [] tail s e = absurd cc
  find_sink-append i (x ∷ ss) tail s e =
      find_next (λ y. y) (x.id == i) x s (find_sink ss i) _ e (find_sink-append i ss tail s)

  find_sink-add_sink :
      (i : ℕ) (r : VideoRouter Axis) (x s : Sink Axis)
      → find_sink r.sinks i ≡ some s
      → find_sink (add_sink r x).sinks i ≡ some s
  unfolding add_sink
  find_sink-add_sink i r x s e =
      if_cases (λ l. find_sink l i ≡ some s) (is_found (find_sink r.sinks x.id)) r.sinks _ (λ _. e)
        (λ _. find_sink-append i r.sinks _ s e)

  find_sink-delete_sink :
      (i j : ℕ) (ss : List (Sink Axis)) (s : Sink Axis)
      → j ≢ i
      → find_sink ss i ≡ some s
      → find_sink (delete_sink ss j) i ≡ some s
  unfolding find_sink delete_sink
  find_sink-delete_sink i j [] s n e = absurd cc
  find_sink-delete_sink i j (x ∷ ss) s n e =
      if_cases (λ l. find_sink l i ≡ some s) (x.id == j) (delete_sink ss j) (x ∷ delete_sink ss j)
        (λ t.
          find_sink-delete_sink i j ss s n
            (passed_over (x.id == i) x s (find_sink ss i) (other x.id i j n t) e))
        (λ _.
          find_next (λ y. y) (x.id == i) x s (find_sink ss i) _ e
            (find_sink-delete_sink i j ss s n))

  router_run-find :
      (i : ℕ) (r : VideoRouter Axis) (es : List (RouterEvent Axis)) (s : Sink Axis)
      → All (Stays i) es
      → find_sink r.sinks i ≡ some s
      → find_sink (router_run r es).sinks i
        ≡ some (deliver_all (timed r.prev_pts r.have_prev (packets es)) s)
  unfolding router_run router_step timed deliver_all forward add_sink remove_sink
  router_run-find i r [] s h e = e
  router_run-find i r (packet p ∷ es) s h e =
      router_run-find i (forward r p) es _ h.1 (find_sink-deliver p _ i r.sinks s e)
  router_run-find i r (joins x ∷ es) s h e =
      router_run-find i (add_sink r x) es s h.1 (find_sink-add_sink i r x s e)
  router_run-find i r (leaves j ∷ es) s h e =
      router_run-find i (remove_sink r j) es s h.1 (find_sink-delete_sink i j r.sinks s h.0 e)

  deliver_passes :
      (p : EncodedPacket) (d : ℤ) (s : Sink Axis)
      → (not s.peer.seen_keyframe && not p.is_keyframe) ≡ false
      → ((deliver p d s).track ≡ s.track ++ sample_of (p, d) ∷ [])
        × ((deliver p d s).peer.seen_keyframe ≡ true)
  unfolding deliver write_sample
  deliver_passes p d s w = (rw w refl, rw w refl)

  deliver_waits :
      (p : EncodedPacket) (d : ℤ) (s : Sink Axis)
      → (not s.peer.seen_keyframe && not p.is_keyframe) ≡ true
      → ((deliver p d s).track ≡ s.track)
        × ((deliver p d s).peer.seen_keyframe ≡ s.peer.seen_keyframe)
  unfolding deliver write_sample
  deliver_waits p d s w = (rw w refl, rw w refl)

  -- A sink that has seen a keyframe gets everything.
  deliver_all_seen :
      (ps : List (EncodedPacket × ℤ)) (s : Sink Axis)
      → s.peer.seen_keyframe ≡ true
      → (deliver_all ps s).track ≡ s.track ++ map sample_of ps
  unfolding deliver_all
  deliver_all_seen [] s e = sym (append-nil s.track)
  deliver_all_seen ((p, d) ∷ ps) s e =
      let w = deliver_passes p d s (ap (λ b. not b && not p.is_keyframe) e) in
      deliver_all_seen ps (deliver p d s) w.1
      ∙ ap (λ l. l ++ map sample_of ps) w.0
      ∙ append_assoc s.track (sample_of (p, d) ∷ []) (map sample_of ps)

  deliver_all_fresh :
      (ps : List (EncodedPacket × ℤ)) (s : Sink Axis)
      → s.peer.seen_keyframe ≡ false
      → (deliver_all ps s).track ≡ s.track ++ from_keyframe ps
  unfolding deliver_all from_keyframe
  deliver_all_fresh [] s e = sym (append-nil s.track)
  deliver_all_fresh ((p, d) ∷ ps) s e = elim (Bool-cases p.is_keyframe) [
    | inl key ↦
        let w = deliver_passes p d s (rw key (rw e refl)) in
        deliver_all_seen ps (deliver p d s) w.1
        ∙ ap (λ l. l ++ map sample_of ps) w.0
        ∙ append_assoc s.track (sample_of (p, d) ∷ []) (map sample_of ps)
        ∙ (rw key refl)
    | inr key ↦
        let w = deliver_waits p d s (rw key (rw e refl)) in
        deliver_all_fresh ps (deliver p d s) (w.1 ∙ e)
        ∙ ap (λ l. l ++ from_keyframe ps) w.0
        ∙ (rw key refl)
  ]

positive : (d : ℤ) → leb_ℤ d (pos 0) ≡ false → pos 1 ≤ℤ d
positive d e = ground arith

sample_duration-positive : (pts prev : ℤ) (have : Bool) → pos 1 ≤ℤ sample_duration pts prev have
unfolding sample_duration
sample_duration-positive pts prev have =
    let d = sub64 pts prev in
    if_cases (λ x. pos 1 ≤ℤ x) (not have) default_sample_duration _ (λ _. omega arith)
      (λ _.
        if_cases (λ x. pos 1 ≤ℤ x) (leb_ℤ d (pos 0)) default_sample_duration d (λ _. omega arith)
          (λ e. positive d e))

timed-positive :
    (prev : ℤ) (have : Bool) (ps : List EncodedPacket)
    → All (λ q. pos 1 ≤ℤ q.1) (timed prev have ps)
unfolding timed
timed-positive prev have [] = tt
timed-positive prev have (p ∷ ps) =
    (sample_duration-positive p.pts prev have, timed-positive p.pts true ps)

-- A viewer that waits for its first keyframe and stays, while others come and go and packets arrive
-- in any order: its track gets the packets from the first keyframe on, all of them and in their
-- order, and the durations of the packets, which all sinks share, are positive.
pub router_run-track :
    {Axis : Type 0} (r : VideoRouter Axis) (es : List (RouterEvent Axis)) (s : Sink Axis) (i : ℕ)
    → find_sink r.sinks i ≡ some s
    → s.track ≡ []
    → s.peer.seen_keyframe ≡ false
    → All (Stays i) es
    → (s' : Sink Axis) × (find_sink (router_run r es).sinks i ≡ some s')
      × (s'.track ≡ from_keyframe (timed r.prev_pts r.have_prev (packets es)))
      × All (λ q. pos 1 ≤ℤ q.1) (timed r.prev_pts r.have_prev (packets es))
router_run-track r es s i e empty fresh h =
    let ps = timed r.prev_pts r.have_prev (packets es) in
    (
      deliver_all ps s,
      router_run-find i r es s h e,
      deliver_all_fresh ps s fresh ∙ ap (λ l. l ++ from_keyframe ps) empty,
      timed-positive r.prev_pts r.have_prev (packets es),
    )
