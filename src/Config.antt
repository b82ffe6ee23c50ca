-- ===== src/Config.antt =====
-- playgate-host/internal/config/config.go: the host's configuration, its defaults and its checks.
-- Reading YAML over the defaults is not modelled. `float64` is a parameter.
use playgate.Common.{String, Bool, false, not, ◌&&◌, ◌||◌, List, [], ◌∷◌, if◌then◌else◌, str_eq}
use playgate.Common.Int.{ℤ, pos, leb_ℤ, ltb_ℤ}
use playgate.Common.Float.{Float64}
use playgate.Common.Result.{Result, ok, guard, ◌>>◌}

pub record CaptureConfig : Type 0 where
  pub source : String
  pub device : String
  pub width : ℤ
  pub height : ℤ
  pub fps : ℤ
  pub format : String

pub record EncoderConfig : Type 0 where
  pub bitrate : ℤ
  pub preset : String
  pub keyframe_interval : ℤ
  pub ffmpeg_path : String
  pub codec : String
  pub vaapi_device : String

pub record AudioConfig : Type 0 where
  pub enabled : Bool
  pub device : String
  pub sample_rate : ℤ
  pub channels : ℤ
  pub bitrate : ℤ
  pub ffmpeg_path : String

pub record AbrConfig (F : Float64) : Type 0 where
  pub enabled : Bool
  pub min_bitrate : ℤ
  pub max_bitrate : ℤ
  pub loss_threshold : F.Carrier
  pub sample_interval_ms : ℤ
  pub cooldown_seconds : ℤ

pub record WebRtcConfig : Type 0 where
  pub ice_servers : List String

pub record InputConfig : Type 0 where
  pub target : String
  pub socket_path : String
  pub rate_hz : ℤ
  pub disabled_buttons : List String

pub record SessionConfig : Type 0 where
  pub enabled : Bool
  pub public_key_base64 : String
  pub public_key_file : String
  pub idle_timeout_seconds : ℤ

pub record SignalingConfig : Type 0 where
  pub url : String
  pub room_id : String
  pub token : String
  pub poll_interval_ms : ℤ
  pub use_turn : Bool

pub record MetricsConfig : Type 0 where
  pub report_interval_seconds : ℤ
  pub listen_addr : String

pub record ServerConfig : Type 0 where
  pub url : String
  pub api_key : String
  pub heartbeat_interval_seconds : ℤ

pub record HostConfig (F : Float64) : Type 0 where
  pub capture : CaptureConfig
  pub encoder : EncoderConfig
  pub audio : AudioConfig
  pub abr : AbrConfig F
  pub web_rtc : WebRtcConfig
  pub input : InputConfig
  pub session : SessionConfig
  pub signaling : SignalingConfig
  pub metrics : MetricsConfig
  pub server : ServerConfig

pub data ValidationError : Type 0 where
  capture_source capture_resolution capture_fps encoder_bitrate encoder_codec : ValidationError
  audio_device audio_format audio_bitrate : ValidationError
  abr_not_positive abr_max_below_min abr_loss_threshold : ValidationError
  input_target session_key signaling_url signaling_room_id : ValidationError

-- One of the strings of a `case`.
abbrev pub one_of : String → List String → Bool
one_of s [] = false
one_of s (x ∷ xs) = str_eq s x || one_of s xs

unfoldable pub validate_capture : CaptureConfig → Result ValidationError (Unit {0})
validate_capture c =
    guard (one_of c.source ("" ∷ "v4l2" ∷ "synthetic" ∷ [])) capture_source
    >> guard (not (leb_ℤ c.width (pos 0) || leb_ℤ c.height (pos 0))) capture_resolution
    >> guard (not (leb_ℤ c.fps (pos 0))) capture_fps

unfoldable pub validate_encoder : EncoderConfig → Result ValidationError (Unit {0})
validate_encoder c =
    guard (not (leb_ℤ c.bitrate (pos 0))) encoder_bitrate
    >> guard (one_of c.codec ("" ∷ "libx264" ∷ "h264_v4l2m2m" ∷ "h264_vaapi" ∷ "h264_nvenc" ∷ []))
        encoder_codec

unfoldable pub validate_audio : AudioConfig → Result ValidationError (Unit {0})
validate_audio c =
    if not c.enabled
    then ok tt
    else guard (not (str_eq c.device "")) audio_device
      >> guard (not (leb_ℤ c.sample_rate (pos 0) || leb_ℤ c.channels (pos 0))) audio_format
      >> guard (not (leb_ℤ c.bitrate (pos 0))) audio_bitrate

unfoldable pub validate_abr : {F : Float64} → AbrConfig F → Result ValidationError (Unit {0})
validate_abr {F} c =
    if not c.enabled
    then ok tt
    else guard (not (leb_ℤ c.min_bitrate (pos 0) || leb_ℤ c.max_bitrate (pos 0))) abr_not_positive
      >> guard (not (ltb_ℤ c.max_bitrate c.min_bitrate)) abr_max_below_min
      >> guard (not (F.lt c.loss_threshold (F.lit 0 1) || F.le (F.lit 1 1) c.loss_threshold))
          abr_loss_threshold

unfoldable pub validate_rest : {F : Float64} → HostConfig F → Result ValidationError (Unit {0})
validate_rest c =
    guard (one_of c.input.target ("" ∷ "nxbt" ∷ "log" ∷ [])) input_target
    >> guard
        (not (
          c.session.enabled
          && str_eq c.session.public_key_base64 ""
          && str_eq c.session.public_key_file ""))
        session_key
    >> guard (not (str_eq c.signaling.url "")) signaling_url
    >> guard (not (str_eq c.signaling.room_id "")) signaling_room_id

-- `Validate`.
unfoldable pub validate : {F : Float64} → HostConfig F → Result ValidationError (Unit {0})
unfolding validate_capture validate_encoder validate_audio validate_abr validate_rest
validate c =
    validate_capture c.capture
    >> validate_encoder c.encoder
    >> validate_audio c.audio
    >> validate_abr c.abr
    >> validate_rest c

-- `Default`.
unfoldable pub default : (F : Float64) → HostConfig F
default F = record {
  capture = record {
    source = "v4l2";
    device = "/dev/video0";
    width = pos 1280;
    height = pos 720;
    fps = pos 30;
    format = "YUYV";
  };
  encoder = record {
    bitrate = pos 6_000_000;
    preset = "ultrafast";
    keyframe_interval = pos 60;
    ffmpeg_path = "ffmpeg";
    codec = "libx264";
    vaapi_device = "";
  };
  audio = record {
    enabled = false;
    device = "default";
    sample_rate = pos 48000;
    channels = pos 2;
    bitrate = pos 128000;
    ffmpeg_path = "";
  };
  abr = record {
    enabled = false;
    min_bitrate = pos 1_000_000;
    max_bitrate = pos 8_000_000;
    loss_threshold = F.lit 5 100;
    sample_interval_ms = pos 2000;
    cooldown_seconds = pos 10;
  };
  web_rtc = record { ice_servers = "stun:stun.l.google.com:19302" ∷ [] };
  input = record {
    target = "nxbt";
    socket_path = "/run/nxbt/nxbt.sock";
    rate_hz = pos 120;
    disabled_buttons = [];
  };
  session = record {
    enabled = false;
    public_key_base64 = "";
    public_key_file = "";
    idle_timeout_seconds = pos 0;
  };
  signaling = record {
    url = "http://localhost:8787";
    room_id = "default";
    token = "";
    poll_interval_ms = pos 500;
    use_turn = false;
  };
  metrics = record { report_interval_seconds = pos 5; listen_addr = "127.0.0.1:9091" };
  server = record { url = ""; api_key = ""; heartbeat_interval_seconds = pos 30 };
}

abbrev pub or_kind : String → String → String
or_kind s d = if str_eq s "" then d else s

-- `CaptureSourceKind`, `InputTargetKind` and `EncoderCodecKind`.
unfoldable pub capture_source_kind : {F : Float64} → HostConfig F → String
capture_source_kind c = or_kind c.capture.source "v4l2"

unfoldable pub input_target_kind : {F : Float64} → HostConfig F → String
input_target_kind c = or_kind c.input.target "nxbt"

unfoldable pub encoder_codec_kind : {F : Float64} → HostConfig F → String
encoder_codec_kind c = or_kind c.encoder.codec "libx264"
