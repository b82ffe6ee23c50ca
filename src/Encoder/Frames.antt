-- ===== src/Encoder/Frames.antt =====
-- playgate-host/internal/encoder/ffmpeg/encoder.go: the way of the raw frames to ffmpeg.
use playgate.Common.{ℕ, ◌*◌, ◌/◌, Bool, true, false, ◌&&◌, List, if◌then◌else◌}
use playgate.Common.Int.{ℤ, pos, negsuc, eqb_ℤ}
use playgate.Common.Channel.{offer_latest}
use playgate.Core.{PixelFormat, VideoFrame, format_unknown, format_yuyv, format_mjpeg, format_nv12}
use playgate.Encoder.Args.{Options}

abbrev pub frame_queue_size : ℕ
frame_queue_size = 2

abbrev pub same_format : PixelFormat → PixelFormat → Bool
same_format format_unknown format_unknown = true
same_format format_yuyv format_yuyv = true
same_format format_mjpeg format_mjpeg = true
same_format format_nv12 format_nv12 = true
same_format a b = false

-- `enqueueFrame`.
unfoldable pub enqueue_frame : List VideoFrame → VideoFrame → List VideoFrame
enqueue_frame queue frame = offer_latest frame_queue_size queue frame

-- A frame that `writeFrames` gets from upstream.
unfoldable pub take_frame : Options → List VideoFrame → VideoFrame → List VideoFrame
unfolding enqueue_frame
take_frame o queue frame =
    if same_format frame.pixel_format o.input_format
      && eqb_ℤ frame.width o.width
      && eqb_ℤ frame.height o.height
    then enqueue_frame queue frame
    else queue

-- `expectedRawSize` of a size that is not negative.
unfoldable pub expected_raw_size : ℕ → ℕ → PixelFormat → ℤ
expected_raw_size w h format_nv12 = pos (w * h * 3 / 2)
expected_raw_size w h format_yuyv = pos (w * h * 2)
expected_raw_size w h format_mjpeg = negsuc 0
expected_raw_size w h format_unknown = negsuc 0
