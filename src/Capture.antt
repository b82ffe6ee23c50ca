-- ===== src/Capture.antt =====
-- playgate-host/internal/capture/v4l2: the formats and their negotiation (format.go), the start
-- of the source and the copies of its frames (source.go). What the device answers is a parameter.
pub mod Negotiation
pub mod Frames
pub mod Rows
mod Examples
use playgate.Common.{
  ℕ, ◌+◌, ◌-◌, ◌*◌, ◌%◌, ◌^◌, Bool, true, false, not, ◌||◌, Option, none, some, String, str_eq,
  List, [], ◌∷◌, ◌++◌, ◌==◌, if◌then◌else◌,
}
use playgate.Common.Bits.{bits_or}
use playgate.Common.Int.{ℤ, pos, negsuc, leb_ℤ}
use playgate.Common.Result.{Result, ok, err}
use playgate.Core.{PixelFormat, format_unknown, format_yuyv, format_mjpeg, format_nv12}

-- `FourCC`, of bytes.
unfoldable pub four_cc : ℕ → ℕ → ℕ → ℕ → ℕ
four_cc a b c d =
    bits_or 32 (bits_or 32 (bits_or 32 a (b * 2 ^ 8 % 2 ^ 32)) (c * 2 ^ 16 % 2 ^ 32))
      (d * 2 ^ 24 % 2 ^ 32)

abbrev pub four_cc_yuyv : ℕ
four_cc_yuyv = four_cc 89 85 89 86

abbrev pub four_cc_mjpeg : ℕ
four_cc_mjpeg = four_cc 77 74 80 71

abbrev pub four_cc_nv12 : ℕ
four_cc_nv12 = four_cc 78 86 49 50

-- `PixelFormatToFourCC`.
unfoldable pub pixel_format_to_four_cc : PixelFormat → Option ℕ
pixel_format_to_four_cc format_yuyv = some four_cc_yuyv
pixel_format_to_four_cc format_mjpeg = some four_cc_mjpeg
pixel_format_to_four_cc format_nv12 = some four_cc_nv12
pixel_format_to_four_cc format_unknown = none

-- `FourCCToPixelFormat`.
unfoldable pub four_cc_to_pixel_format : ℕ → Option PixelFormat
four_cc_to_pixel_format code =
    if code == four_cc_yuyv
    then some format_yuyv
    else if code == four_cc_mjpeg
    then some format_mjpeg
    else if code == four_cc_nv12
    then some format_nv12
    else none

pub record Config : Type 0 where
  pub device : String
  pub width : ℤ
  pub height : ℤ
  pub fps : ℤ
  pub preferred_formats : List PixelFormat

abbrev pub default_preferred_formats : List PixelFormat
default_preferred_formats = format_yuyv ∷ format_mjpeg ∷ []

-- `preferred`.
abbrev pub or_default : List PixelFormat → List PixelFormat
or_default [] = default_preferred_formats
or_default (f ∷ fs) = f ∷ fs

-- The loop of `NegotiateFormat`, and the function.
abbrev pub take_if :
    Option ℕ → PixelFormat → (ℕ → Bool) → Option (PixelFormat × ℕ) → Option (PixelFormat × ℕ)
take_if none f available later = later
take_if (some code) f available later = if available code then some (f, code) else later

unfoldable pub negotiate_loop : List PixelFormat → (ℕ → Bool) → Option (PixelFormat × ℕ)
unfolding pixel_format_to_four_cc
negotiate_loop [] available = none
negotiate_loop (f ∷ fs) available =
    take_if (pixel_format_to_four_cc f) f available (negotiate_loop fs available)

unfoldable pub negotiate_format : List PixelFormat → (ℕ → Bool) → Option (PixelFormat × ℕ)
unfolding negotiate_loop
negotiate_format preferred available = negotiate_loop (or_default preferred) available

-- `uint32(n)`.
abbrev pub to_uint32 : ℤ → ℕ
to_uint32 (pos n) = n % 2 ^ 32
to_uint32 (negsuc n) = 2 ^ 32 - 1 - n % 2 ^ 32

-- What the driver chose.
pub record Actual : Type 0 where
  pub pixel_code : ℕ
  pub width : ℕ
  pub height : ℕ
  pub bytes_per_line : ℕ
  pub size_image : ℕ

-- What the device answers to each call, in turn.
pub record Answers : Type 0 where
  pub query : Option (ℕ → Bool)
  pub opens : Bool
  pub format : Option Actual
  pub buffers : Bool
  pub streams : Bool

pub data DeviceCall : Type 0 where
  device_open : DeviceCall
  set_format : ℕ → ℕ → ℕ → DeviceCall
  set_frame_rate : ℕ → DeviceCall
  init_buffers : ℕ → DeviceCall
  stream_on : DeviceCall
  device_close : DeviceCall

pub data StartError : Type 0 where
  query_error : StartError
  negotiate_error : StartError
  open_error : StartError
  format_error : StartError
  driver_choice : StartError
  buffers_error : StartError
  stream_error : StartError

pub record Source : Type 0 where
  pub config : Config
  pub has_device : Bool
  pub code : ℕ
  pub pixel_format : PixelFormat
  pub width : ℕ
  pub height : ℕ
  pub bytes_per_line : ℕ
  pub size_image : ℕ

abbrev pub frame_buffer_size : ℕ
frame_buffer_size = 2

-- The source, the calls of the device and the result.
abbrev pub Outcome : Type 0
Outcome = Source × List DeviceCall × Result StartError (Unit {0})

abbrev pub format_calls : Config → ℕ → List DeviceCall
format_calls c code = device_open ∷ set_format (to_uint32 c.width) (to_uint32 c.height) code ∷ []

-- `Start` where the driver took the format.
unfoldable pub start_streaming : Source → Answers → PixelFormat → ℕ → Actual → Outcome
start_streaming s a f code actual =
    let calls =
      format_calls s.config code
      ++ set_frame_rate (to_uint32 s.config.fps) ∷ init_buffers frame_buffer_size ∷ [] in
    if not a.buffers
    then (s, calls ++ device_close ∷ [], err buffers_error)
    else if not a.streams
    then (s, calls ++ stream_on ∷ device_close ∷ [], err stream_error)
    else (
      record s {
        has_device = true;
        code = code;
        pixel_format = f;
        width = actual.width;
        height = actual.height;
        bytes_per_line = actual.bytes_per_line;
        size_image = actual.size_image;
      },
      calls ++ stream_on ∷ [],
      ok tt,
    )

-- `Start` from the answer to `setFormat` on.
unfoldable pub start_formatted : Source → Answers → PixelFormat → ℕ → Option Actual → Outcome
unfolding start_streaming
start_formatted s a f code none =
    (s, format_calls s.config code ++ device_close ∷ [], err format_error)
start_formatted s a f code (some actual) =
    if not (actual.pixel_code == code)
    then (s, format_calls s.config code ++ device_close ∷ [], err driver_choice)
    else start_streaming s a f code actual

unfoldable pub start_negotiated : Source → Answers → Option (PixelFormat × ℕ) → Outcome
unfolding start_formatted
start_negotiated s a none = (s, [], err negotiate_error)
start_negotiated s a (some (f, code)) =
    if not a.opens then (s, [], err open_error) else start_formatted s a f code a.format

unfoldable pub start_queried : Source → Answers → Option (ℕ → Bool) → Outcome
unfolding start_negotiated negotiate_format
start_queried s a none = (s, [], err query_error)
start_queried s a (some available) =
    start_negotiated s a (negotiate_format (or_default s.config.preferred_formats) available)

-- `Start`.
unfoldable pub start : Source → Answers → Outcome
unfolding start_queried
start s a = start_queried s a a.query
