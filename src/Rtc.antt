-- ===== src/Rtc.antt =====
-- playgate-host/internal/rtc/peer.go and pump.go: a viewer's connection, of which Pion's part is not
-- modelled. Each callback and each call is one step. The channel of commands is the list of what it
-- holds; the video track is what each call gives it.
pub mod Wire
pub mod Order
pub mod Input
mod Examples
use playgate.Common.{
  ℕ, Bool, true, false, not, ◌&&◌, Option, none, some, List, [], ◌∷◌, ◌++◌, leb, ◌==◌,
  if◌then◌else◌,
}
use playgate.Common.Int.{ℤ, pos, pos_part, leb_ℤ, sub64}
use playgate.Common.Float.{Float32}
use playgate.Common.Time.{second}
use playgate.Common.Channel.{offer_latest}
use playgate.Common.Result.{Result, ok, err}
use playgate.Core.{InputCommand, EncodedPacket}
use playgate.Rtc.Wire.{WireError, decode_input_command}

-- The fields of `Peer` that the program itself keeps.
pub record Peer (Axis : Type 0) : Type 0 where
  pub closed : Bool
  pub capacity : ℕ
  pub commands : List (InputCommand Axis)
  pub last_input_seq : ℕ
  pub have_input_seq : Bool
  pub seen_keyframe : Bool

-- `Config.CommandBuffer`, with the default of `NewPeer`.
unfoldable pub command_buffer : ℤ → ℕ
command_buffer n = if leb_ℤ n (pos 0) then 64 else pos_part n

-- `NewPeer`.
unfoldable pub new_peer : {Axis : Type 0} → ℤ → Peer Axis
unfolding command_buffer
new_peer n = record {
  closed = false;
  capacity = command_buffer n;
  commands = [];
  last_input_seq = 0;
  have_input_seq = false;
  seen_keyframe = false;
}

module _ (F : Float32) where
  unfoldable pub is_stale : Peer F.Carrier → InputCommand F.Carrier → Bool
  is_stale p cmd = not (cmd.seq == 0) && p.have_input_seq && leb cmd.seq p.last_input_seq

  unfoldable pub enqueue_command : Peer F.Carrier → InputCommand F.Carrier → Peer F.Carrier
  enqueue_command p cmd = record p {
    last_input_seq = if cmd.seq == 0 then p.last_input_seq else cmd.seq;
    have_input_seq = if cmd.seq == 0 then p.have_input_seq else true;
    commands = offer_latest p.capacity p.commands cmd;
  }

  unfoldable pub on_decoded :
      Peer F.Carrier → Result WireError (InputCommand F.Carrier) → Peer F.Carrier
  unfolding is_stale enqueue_command
  on_decoded p (err e) = p
  on_decoded p (ok cmd) =
      if p.closed then p else if is_stale p cmd then p else enqueue_command p cmd

  -- The handler of `attachInputChannel`.
  unfoldable pub on_input_message : Peer F.Carrier → Bool → List ℕ → ℕ → Peer F.Carrier
  unfolding on_decoded
  on_input_message p is_string data_bytes now =
      if is_string then p else on_decoded p (decode_input_command F data_bytes now)

module _ {Axis : Type 0} where
  -- `Close`.
  unfoldable pub close : Peer Axis → Peer Axis
  close p = record p { closed = true }

  -- `WriteSample`: what the video track gets.
  unfoldable pub write_sample : Peer Axis → EncodedPacket → ℤ → Peer Axis × Option (List ℕ × ℤ)
  write_sample p pkt duration =
      let waits = not p.seen_keyframe && not pkt.is_keyframe in
      (
        record p { seen_keyframe = if waits then p.seen_keyframe else true },
        if waits then none else some (pkt.payload, duration),
      )

-- 33.333333 ms.
abbrev pub default_sample_duration : ℤ
default_sample_duration = pos 33_333_333

-- `SampleDuration`.
unfoldable pub sample_duration : ℤ → ℤ → Bool → ℤ
sample_duration pts prev_pts have_prev =
    let d = sub64 pts prev_pts in
    if not have_prev
    then default_sample_duration
    else if leb_ℤ d (pos 0)
    then default_sample_duration
    else d
