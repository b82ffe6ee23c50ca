-- ===== src/Capture/Examples.antt =====
-- A capture card that offers MJPEG, and not YUYV.
use playgate.Common.{ℕ, ◌≡◌, refl, Bool, true, false, some, [], ◌==◌}
use playgate.Common.Bits.{bits_or}
use playgate.Common.Int.{pos}
use playgate.Common.Result.{err}
use playgate.Core.{format_unknown}
use playgate.Capture.{
  Answers, Source, stream_error, four_cc, four_cc_mjpeg, pixel_format_to_four_cc, negotiate_loop,
  negotiate_format, start_streaming, start_formatted, start_negotiated, start_queried, start,
}
use playgate.Capture.Negotiation.{Streams, start-Started}
use playgate.Common.Int.{wrap64, of_bits}
use playgate.Common.{arith, List, [], ◌∷◌}
use playgate.Core.{format_nv12}
use playgate.Capture.Frames.{Geometry, row, copy_rows, copy_yuyv, copy_nv12, copy_frame_data}
use playgate.Capture.Rows.{Repacked, copy_frame_data-Repacked}

run_open : ℕ
unfolding bits_or four_cc pixel_format_to_four_cc row copy_rows copy_yuyv copy_nv12 copy_frame_data
    wrap64 of_bits negotiate_loop negotiate_format start_streaming start_formatted start_negotiated
    start_queried start
run_open = 0

abbrev source : Source
source = record {
  config = record {
    device = "/dev/video0";
    width = pos 1280;
    height = pos 720;
    fps = pos 30;
    preferred_formats = [];
  };
  has_device = false;
  code = 0;
  pixel_format = format_unknown;
  width = 0;
  height = 0;
  bytes_per_line = 0;
  size_image = 0;
}

abbrev card : Bool → Answers
card streams = record {
  query = some (λ c. c == 1196444237);
  opens = true;
  format = some (record {
    pixel_code = 1196444237;
    width = 1920;
    height = 1080;
    bytes_per_line = 0;
    size_image = 4147200;
  });
  buffers = true;
  streams = streams;
}

-- The codes of videodev2.h.
mjpeg_code : four_cc_mjpeg ≡ 1196444237
unfolding run_open
mjpeg_code = refl

no_stream : (start source (card false)).2 ≡ err stream_error
unfolding run_open
no_stream = refl

start-Started_example :
    Streams source (card true) (start source (card true)).0 (start source (card true)).1
unfolding run_open
start-Started_example = start-Started source (card true)

-- Two pixels by two with two bytes of padding, and one row of chroma.
abbrev padded : Geometry
padded = record { width = 2; height = 2; bytes_per_line = 4 }

abbrev buffer : List ℕ
buffer = 1 ∷ 2 ∷ 0 ∷ 0 ∷ 3 ∷ 4 ∷ 0 ∷ 0 ∷ 5 ∷ 6 ∷ 0 ∷ 0 ∷ []

repacked : copy_frame_data format_nv12 padded buffer 12 ≡ some (some (1 ∷ 2 ∷ 3 ∷ 4 ∷ 5 ∷ 6 ∷ []))
unfolding run_open
repacked = refl

copy_frame_data-Repacked_example :
    Repacked 2 4 3 buffer 2 1 (copy_frame_data format_nv12 padded buffer 12)
copy_frame_data-Repacked_example =
    copy_frame_data-Repacked format_nv12 padded buffer 12 2 1 (omega arith) (omega arith)
      (omega arith)
