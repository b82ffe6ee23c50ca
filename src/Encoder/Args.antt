-- ===== src/Encoder/Args.antt =====
-- playgate-host/internal/encoder/ffmpeg/args.go and codec.go: the options of the encoder.
use playgate.Common.{◌||◌, Option, none, some, String, str_eq, if◌then◌else◌}
use playgate.Common.Int.{ℤ, pos, leb_ℤ}
use playgate.Common.Result.{Result, ok, err}
use playgate.Core.{PixelFormat, format_unknown, format_yuyv, format_mjpeg, format_nv12}

-- The implementations of `Codec`.
pub data Codec : Type 0 where
  lib_x264 : Codec
  v4l2m2m : Codec
  vaapi : String → Codec
  nvenc : Codec

abbrev pub default_vaapi_device : String
default_vaapi_device = "/dev/dri/renderD128"

pub data OptionsError : Type 0 where
  frame_size : OptionsError
  input_format_error : OptionsError
  unknown_codec : String → OptionsError

-- `CodecFromName`.
unfoldable pub codec_from_name : String → String → Result OptionsError Codec
codec_from_name name vaapi_device =
    if str_eq name "" || str_eq name "libx264"
    then ok lib_x264
    else if str_eq name "h264_v4l2m2m"
    then ok v4l2m2m
    else if str_eq name "h264_vaapi"
    then ok (vaapi (if str_eq vaapi_device "" then default_vaapi_device else vaapi_device))
    else if str_eq name "h264_nvenc"
    then ok nvenc
    else err (unknown_codec name)

pub record Options : Type 0 where
  pub ffmpeg_path : String
  pub width : ℤ
  pub height : ℤ
  pub fps : ℤ
  pub input_format : PixelFormat
  pub bitrate : ℤ
  pub gop_size : ℤ
  pub preset : String
  pub tune : String
  pub codec : Option Codec

-- `DefaultOptions`.
abbrev pub default_options : ℤ → ℤ → ℤ → PixelFormat → Options
default_options width height fps format = record {
  ffmpeg_path = "ffmpeg";
  width = width;
  height = height;
  fps = fps;
  input_format = format;
  bitrate = pos 6_000_000;
  gop_size = pos 30;
  preset = "ultrafast";
  tune = "zerolatency";
  codec = some lib_x264;
}

abbrev pub or_positive : ℤ → ℤ → ℤ
or_positive x d = if leb_ℤ x (pos 0) then d else x

abbrev pub or_text : String → String → String
or_text x d = if str_eq x "" then d else x

abbrev pub or_codec : Option Codec → Codec
or_codec none = lib_x264
or_codec (some c) = c

-- `normalise`.
unfoldable pub normalise : Options → Options
normalise o = record o {
  ffmpeg_path = or_text o.ffmpeg_path "ffmpeg";
  fps = or_positive o.fps (pos 30);
  bitrate = or_positive o.bitrate (pos 6_000_000);
  gop_size = or_positive o.gop_size (pos 30);
  preset = or_text o.preset "ultrafast";
  tune = or_text o.tune "zerolatency";
  codec = some (or_codec o.codec);
}

unfoldable pub check_format : PixelFormat → Result OptionsError (Unit {0})
check_format format_yuyv = ok tt
check_format format_nv12 = ok tt
check_format format_mjpeg = ok tt
check_format format_unknown = err input_format_error

-- `Validate`.
unfoldable pub validate : Options → Result OptionsError (Unit {0})
unfolding check_format
validate o =
    if leb_ℤ o.width (pos 0) || leb_ℤ o.height (pos 0)
    then err frame_size
    else check_format o.input_format
