-- ===== src/Core.antt =====
-- playgate-host/internal/core/types.go: what passes between the stages of the host. The axes are
-- `float32`; instants are nanoseconds since a fixed origin.
use playgate.Common.{ℕ, Bool, List}
use playgate.Common.Int.{ℤ}

pub record InputCommand (Axis : Type 0) : Type 0 where
  pub seq : ℕ
  pub buttons : ℕ
  pub lx : Axis
  pub ly : Axis
  pub rx : Axis
  pub ry : Axis
  pub timestamp : ℕ

pub data PixelFormat : Type 0 where
  format_unknown : PixelFormat
  format_yuyv : PixelFormat
  format_mjpeg : PixelFormat
  format_nv12 : PixelFormat

pub record VideoFrame : Type 0 where
  pub pixels : List ℕ
  pub pixel_format : PixelFormat
  pub width : ℤ
  pub height : ℤ
  pub timestamp : ℕ

-- `pts` is a `time.Duration`.
pub record EncodedPacket : Type 0 where
  pub payload : List ℕ
  pub pts : ℤ
  pub is_keyframe : Bool
