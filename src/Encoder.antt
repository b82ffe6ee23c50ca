-- ===== src/Encoder.antt =====
-- playgate-host/internal/encoder/ffmpeg/encoder.go, args.go and codec.go: the encoder around the
-- ffmpeg process, which is not modelled. A `select` that does not block is one step, and the
-- channels are the lists of what they hold. Zero is the instant of Go's zero time.
pub mod Args
pub mod Frames
mod Examples
pub mod Restart
pub mod Command
pub mod Keyframes
use playgate.Common.{
  ℕ, suc, ◌+◌, ◌-◌, ◌*◌, ◌/◌, Bool, true, false, not, ◌&&◌, ◌||◌, Option, none, some, List, [], ◌∷◌,
  ◌++◌, ltb, ◌==◌, if◌then◌else◌, length,
}
use playgate.Common.Int.{ℤ, pos, negsuc, pos_part, leb_ℤ, ltb_ℤ, eqb_ℤ, wrap64}
use playgate.Common.Time.{second, time_sub}
use playgate.Common.Channel.{offer, offer_latest}
use playgate.Common.Result.{Result, ok, err}
use playgate.Core.{
  PixelFormat, VideoFrame, EncodedPacket, format_unknown, format_yuyv, format_mjpeg, format_nv12,
}
use playgate.Annexb.{AccessUnit, Splitter, push, flush, new_splitter}
use playgate.Encoder.Args.{Options, OptionsError, normalise, validate}

abbrev pub packet_buffer_size : ℕ
packet_buffer_size = 4

abbrev pub force_keyframe_debounce : ℤ
force_keyframe_debounce = pos second

-- `Encoder`. `restart` is whether the channel of one signal holds it.
pub record Encoder : Type 0 where
  pub opts : Options
  pub packets : List EncodedPacket
  pub frames_out : ℕ
  pub restart : Bool
  pub last_force : ℕ

unfoldable pub new_with : Options → Result OptionsError (Unit {0}) → Result OptionsError Encoder
new_with o (err e) = err e
new_with o (ok u) =
    ok (record { opts = o; packets = []; frames_out = 0; restart = false; last_force = 0 })

-- `New`.
unfoldable pub new : Options → Result OptionsError Encoder
unfolding new_with normalise validate
new opts = let o = normalise opts in new_with o (validate o)

-- `SetBitrate`.
unfoldable pub set_bitrate : Encoder → ℤ → Encoder
set_bitrate e bps =
    let o : Options = e.opts in
    let changes = not (leb_ℤ bps (pos 0)) && not (eqb_ℤ o.bitrate bps) in
    record e {
      opts = record o { bitrate = if changes then bps else o.bitrate };
      restart = if changes then true else e.restart;
    }

-- `ForceKeyframe` at an instant.
unfoldable pub force_keyframe : Encoder → ℕ → Encoder
force_keyframe e now =
    let early =
      not (e.last_force == 0) && ltb_ℤ (time_sub now e.last_force) force_keyframe_debounce in
    record e {
      last_force = if early then e.last_force else now;
      restart = if early then e.restart else true;
    }

-- A quotient of a duration, rounded towards 0.
unfoldable pub div_duration : ℤ → ℕ → ℤ
div_duration (pos a) n = pos (a / n)
div_duration (negsuc a) n = let q = suc a / n in if q == 0 then pos 0 else negsuc (q - 1)

unfoldable pub effective_fps : ℤ → ℕ
effective_fps fps = if leb_ℤ fps (pos 0) then 30 else pos_part fps

-- The presentation time of the n-th access unit.
unfoldable pub pts_of : ℤ → ℕ → ℤ
unfolding div_duration effective_fps wrap64
pts_of fps n = div_duration (wrap64 (pos (n * second))) (effective_fps fps)

-- The queue after a packet, where it is full and its oldest packet was received.
unfoldable pub replace_oldest :
    EncodedPacket → List EncodedPacket → EncodedPacket → List EncodedPacket
unfolding offer
replace_oldest old rest pkt =
    if old.is_keyframe then offer packet_buffer_size rest old else offer packet_buffer_size rest pkt

unfoldable pub queue_packet : List EncodedPacket → EncodedPacket → List EncodedPacket
unfolding replace_oldest offer
queue_packet [] pkt = offer packet_buffer_size [] pkt
queue_packet (old ∷ rest) pkt =
    if ltb (length (old ∷ rest)) packet_buffer_size
    then (old ∷ rest) ++ pkt ∷ []
    else replace_oldest old rest pkt

-- `emitPacket`.
unfoldable pub emit_packet : Encoder → AccessUnit → Encoder
unfolding queue_packet pts_of
emit_packet e au =
    let o : Options = e.opts in
    let pkt : EncodedPacket = record {
      payload = au.data_bytes;
      pts = pts_of o.fps e.frames_out;
      is_keyframe = au.is_keyframe;
    } in
    record e { packets = queue_packet e.packets pkt; frames_out = suc e.frames_out }

unfoldable pub emit_all : Encoder → List AccessUnit → Encoder
unfolding emit_packet
emit_all e [] = e
emit_all e (au ∷ aus) = emit_all (emit_packet e au) aus

-- What a read of ffmpeg's output gives: bytes, its end, or an error.
pub data Read : Type 0 where
  chunk : List ℕ → Read
  end_of_file : Read
  read_error : Read

-- `readPackets`, up to the end of the given reads; false is an error.
unfoldable pub read_packets : Encoder → Splitter → List Read → Encoder × Bool
unfolding emit_all push flush
read_packets e s [] = (e, true)
read_packets e s (chunk bytes ∷ rs) =
    let r = push s bytes in
    let n = length bytes in
    read_packets (if ltb 0 n then emit_all e r.1 else e) (if ltb 0 n then r.0 else s) rs
read_packets e s (end_of_file ∷ rs) = (emit_all e (flush s).1, true)
read_packets e s (read_error ∷ rs) = (e, false)
