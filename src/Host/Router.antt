-- ===== src/Host/Router.antt =====
-- playgate-host/internal/host/router.go: the router of the encoder's packets to the viewers. A sink
-- is a peer, with its identity and with what its video track has got.
use playgate.Common.{
  ℕ, Bool, true, false, Option, none, some, List, [], ◌∷◌, ◌++◌, map, ◌==◌, if◌then◌else◌,
}
use playgate.Common.Int.{ℤ, pos}
use playgate.Core.{EncodedPacket}
use playgate.Rtc.{Peer, write_sample, sample_duration}

pub record Sink (Axis : Type 0) : Type 0 where
  pub id : ℕ
  pub peer : Peer Axis
  pub track : List (List ℕ × ℤ)

-- `VideoRouter`.
pub record VideoRouter (Axis : Type 0) : Type 0 where
  pub sinks : List (Sink Axis)
  pub prev_pts : ℤ
  pub have_prev : Bool

-- `NewVideoRouter`.
abbrev pub new_video_router : {Axis : Type 0} → VideoRouter Axis
new_video_router = record { sinks = []; prev_pts = pos 0; have_prev = false }

abbrev pub written : List (List ℕ × ℤ) → Option (List ℕ × ℤ) → List (List ℕ × ℤ)
written track none = track
written track (some sample) = track ++ sample ∷ []

module _ {Axis : Type 0} where
  unfoldable pub find_sink : List (Sink Axis) → ℕ → Option (Sink Axis)
  find_sink [] i = none
  find_sink (s ∷ ss) i = let rest = find_sink ss i in if s.id == i then some s else rest

  unfoldable pub is_found : Option (Sink Axis) → Bool
  is_found none = false
  is_found (some s) = true

  -- `AddSink`.
  unfoldable pub add_sink : VideoRouter Axis → Sink Axis → VideoRouter Axis
  unfolding find_sink is_found
  add_sink r s = record r {
    sinks = if is_found (find_sink r.sinks s.id) then r.sinks else r.sinks ++ s ∷ [];
  }

  unfoldable pub delete_sink : List (Sink Axis) → ℕ → List (Sink Axis)
  delete_sink [] i = []
  delete_sink (s ∷ ss) i = let rest = delete_sink ss i in if s.id == i then rest else s ∷ rest

  -- `RemoveSink`.
  unfoldable pub remove_sink : VideoRouter Axis → ℕ → VideoRouter Axis
  unfolding delete_sink
  remove_sink r i = record r { sinks = delete_sink r.sinks i }

  -- `sink.WriteSample`.
  unfoldable pub deliver : EncodedPacket → ℤ → Sink Axis → Sink Axis
  deliver pkt dur s =
      let r = write_sample s.peer pkt dur in record s { peer = r.0; track = written s.track r.1 }

  -- `forward`.
  unfoldable pub forward : VideoRouter Axis → EncodedPacket → VideoRouter Axis
  unfolding deliver
  forward r pkt =
      let dur = sample_duration pkt.pts r.prev_pts r.have_prev in
      record { sinks = map (deliver pkt dur) r.sinks; prev_pts = pkt.pts; have_prev = true }
