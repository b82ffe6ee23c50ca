-- ===== src/Capture/Frames.antt =====
-- playgate-host/internal/capture/v4l2/source.go: the repacking of rows that a driver has padded. The
-- sizes are uint32 in an int, so none is negative; only the product of two can wrap.
use playgate.Common.{
  ℕ, zero, suc, ◌+◌, ◌*◌, ◌/◌, Option, none, some, List, [], ◌++◌, ◌==◌, length, take, drop, ltb,
  leb, if◌then◌else◌,
}
use playgate.Core.{PixelFormat, format_unknown, format_yuyv, format_mjpeg, format_nv12}
use playgate.Common.Int.{pos, wrap64, ltb_ℤ}

-- A slice of a row, where it is in range.
unfoldable pub row : ℕ → List ℕ → ℕ → Option (List ℕ)
row n src at = if leb (at + n) (length src) then some (take n (drop at src)) else none

abbrev pub append_row : Option (List ℕ) → Option (List ℕ) → Option (List ℕ)
append_row none later = none
append_row (some a) none = none
append_row (some a) (some b) = some (a ++ b)

-- `copyRows` from row y on: what it writes, or none where a slice is out of range.
unfoldable pub copy_rows : ℕ → List ℕ → ℕ → ℕ → ℕ → Option (List ℕ)
unfolding row
copy_rows n src stride y zero = some []
copy_rows n src stride y (suc rows) =
    let later = copy_rows n src stride (suc y) rows in append_row (row n src (y * stride)) later

-- What a driver chose for raw frames.
pub record Geometry : Type 0 where
  pub width : ℕ
  pub height : ℕ
  pub bytes_per_line : ℕ

abbrev pub stride_of : Geometry → ℕ → ℕ
stride_of g row_bytes = if g.bytes_per_line == 0 then row_bytes else g.bytes_per_line

abbrev pub some_rows : Option (List ℕ) → Option (Option (List ℕ))
some_rows none = none
some_rows (some out) = some (some out)

-- `copyYUYV`. The outer `none` is a slice out of range.
unfoldable pub copy_yuyv : Geometry → List ℕ → Option (Option (List ℕ))
unfolding copy_rows
copy_yuyv g src =
    let n = g.width * 2 in
    let stride = stride_of g n in
    if ltb stride n
    then some none
    else if ltb_ℤ (pos (length src)) (wrap64 (pos (stride * g.height)))
    then some none
    else some_rows (copy_rows n src stride 0 g.height)

abbrev pub uv_rows : ℕ → ℕ
uv_rows height = (height + 1) / 2

-- `copyNV12`.
unfoldable pub copy_nv12 : Geometry → List ℕ → Option (Option (List ℕ))
unfolding copy_rows
copy_nv12 g src =
    let n = g.width in
    let stride = stride_of g n in
    let uv = uv_rows g.height in
    if ltb stride n
    then some none
    else if ltb_ℤ (pos (length src)) (wrap64 (pos (stride * (g.height + uv))))
    then some none
    else some_rows (
        append_row (copy_rows n (take (stride * g.height) src) stride 0 g.height)
          (copy_rows n (drop (stride * g.height) src) stride 0 uv))

-- `copyFrameData` of the bytes that the driver says are used.
unfoldable pub copy_frame_data : PixelFormat → Geometry → List ℕ → ℕ → Option (Option (List ℕ))
unfolding copy_nv12 copy_yuyv
copy_frame_data format_mjpeg g src used =
    let n = if ltb (length src) used then length src else used in
    if n == 0 then some none else some (some (take n src))
copy_frame_data format_nv12 g src used = copy_nv12 g src
copy_frame_data format_yuyv g src used = copy_yuyv g src
copy_frame_data format_unknown g src used = some none
