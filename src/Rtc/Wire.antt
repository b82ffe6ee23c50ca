-- ===== src/Rtc/Wire.antt =====
-- playgate-host/internal/rtc/input_codec.go: the frame of an input command.
use playgate.Common.{
  ℕ, ◌+◌, ◌-◌, ◌*◌, ◌/◌, ◌%◌, ◌<◌, ◌≡◌, refl, List, [], ◌∷◌, ltb, ◌==◌, if◌then◌else◌, length,
  get_or, not, ap, ◌∙◌, if_cases, arith,
}
use playgate.Common.Int.{ℤ, pos, negsuc, leb_ℤ}
use playgate.Common.Float.{Float32}
use playgate.Common.Result.{Result, ok, err}
use playgate.Core.{InputCommand}

abbrev pub input_wire_version : ℕ
input_wire_version = 2

abbrev pub input_wire_size : ℕ
input_wire_size = 17

abbrev pub axis_scale : ℤ
axis_scale = pos 32767

abbrev pub minus_axis_scale : ℤ
minus_axis_scale = negsuc 32766

-- The 16 bits of an `int16`, and the `int16` of 16 bits.
unfoldable pub uint16 : ℤ → ℕ
uint16 (pos n) = n % 65536
uint16 (negsuc n) = 65535 - n % 65536

unfoldable pub int16 : ℕ → ℤ
int16 m = if ltb m 32768 then pos m else negsuc (65535 - m)

-- The conversion of a whole number to `int16`.
unfoldable pub to_int16 : ℤ → ℤ
unfolding uint16 int16
to_int16 a = int16 (uint16 a)

-- `binary.LittleEndian`: the low byte first, in front of the bytes that follow.
unfoldable pub put_uint16 : ℕ → List ℕ → List ℕ
put_uint16 n rest = n % 256 ∷ n / 256 % 256 ∷ rest

unfoldable pub put_uint32 : ℕ → List ℕ → List ℕ
put_uint32 n rest = n % 256 ∷ n / 256 % 256 ∷ n / 65536 % 256 ∷ n / 16777216 % 256 ∷ rest

abbrev pub IsUint32 : ℕ → Type 0
IsUint32 n = n < 4294967296

abbrev pub uint16_of : ℕ → ℕ → ℕ
uint16_of a b = a + b * 256

abbrev pub uint32_of : ℕ → ℕ → ℕ → ℕ → ℕ
uint32_of a b c d = a + b * 256 + c * 65536 + d * 16777216

abbrev pub uint16_at : List ℕ → ℕ → ℕ
uint16_at buf i = uint16_of (get_or buf i 0) (get_or buf (i + 1) 0)

abbrev pub uint32_at : List ℕ → ℕ → ℕ
uint32_at buf i =
    uint32_of (get_or buf i 0) (get_or buf (i + 1) 0) (get_or buf (i + 2) 0) (get_or buf (i + 3) 0)

uint16-max : (a : ℤ) → uint16 a < 65536
unfolding uint16
uint16-max (pos n) = omega arith
uint16-max (negsuc n) = omega arith

uint16-int16 : (m : ℕ) → m < 65536 → uint16 (int16 m) ≡ m
unfolding uint16 int16
uint16-int16 m h = ground arith

int16-uint16 : (a : ℤ) → int16 (uint16 (to_int16 a)) ≡ to_int16 a
unfolding to_int16
int16-uint16 a = ap int16 (uint16-int16 (uint16 a) (uint16-max a))

uint16_of-bytes : (n : ℕ) → n < 65536 → uint16_of (n % 256) (n / 256 % 256) ≡ n
uint16_of-bytes n h = omega (arith, h)

uint32_of-bytes :
    (n : ℕ)
    → IsUint32 n
    → uint32_of (n % 256) (n / 256 % 256) (n / 65536 % 256) (n / 16777216 % 256) ≡ n
uint32_of-bytes n h = omega (arith, h)

-- The length of the frame is wrong, or its version.
pub data WireError : Type 0 where
  wrong_size : ℕ → WireError
  wrong_version : ℕ → WireError

module _ (F : Float32) where
  -- The scaling and clamping of `axisToInt16`, and its rounding.
  unfoldable pub scale_axis : F.Carrier → F.wide.Carrier
  scale_axis v =
      let w = F.wide in
      let scale = w.of_int axis_scale in
      let low = w.of_int minus_axis_scale in
      let scaled = w.mul (F.widen v) scale in
      if w.lt scale scaled then scale else if w.lt scaled low then low else scaled

  unfoldable pub round_axis : F.wide.Carrier → ℤ
  unfolding to_int16
  round_axis scaled =
      let w = F.wide in
      if w.le (w.of_int (pos 0)) scaled
      then to_int16 (w.to_int (F.add scaled (w.lit 1 2)))
      else to_int16 (w.to_int (F.sub scaled (w.lit 1 2)))

  -- `axisToInt16`.
  unfoldable pub axis_to_int16 : F.Carrier → ℤ
  unfolding scale_axis round_axis
  axis_to_int16 v = round_axis (scale_axis v)

  -- `int16ToAxis`.
  unfoldable pub int16_to_axis : ℤ → F.Carrier
  int16_to_axis v =
      if leb_ℤ v minus_axis_scale
      then F.of_int (negsuc 0)
      else F.div (F.of_int v) (F.of_int axis_scale)

  -- `EncodeInputCommand`.
  unfoldable pub encode_input_command : InputCommand F.Carrier → List ℕ
  unfolding put_uint16 put_uint32 uint16 axis_to_int16
  encode_input_command cmd =
      input_wire_version
      ∷ put_uint32 cmd.buttons (
          put_uint16 (uint16 (axis_to_int16 cmd.lx)) (
            put_uint16 (uint16 (axis_to_int16 cmd.ly)) (
              put_uint16 (uint16 (axis_to_int16 cmd.rx))
                (put_uint16 (uint16 (axis_to_int16 cmd.ry)) (put_uint32 cmd.seq [])))))

  unfoldable pub decode_body : List ℕ → ℕ → InputCommand F.Carrier
  unfolding int16 int16_to_axis
  decode_body buf now = record {
    buttons = uint32_at buf 1;
    lx = int16_to_axis (int16 (uint16_at buf 5));
    ly = int16_to_axis (int16 (uint16_at buf 7));
    rx = int16_to_axis (int16 (uint16_at buf 9));
    ry = int16_to_axis (int16 (uint16_at buf 11));
    seq = uint32_at buf 13;
    timestamp = now;
  }

  -- `DecodeInputCommand`.
  unfoldable pub decode_input_command : List ℕ → ℕ → Result WireError (InputCommand F.Carrier)
  unfolding decode_body
  decode_input_command buf now =
      if not (length buf == input_wire_size)
      then err (wrong_size (length buf))
      else if not (get_or buf 0 0 == input_wire_version)
      then err (wrong_version (get_or buf 0 0))
      else ok (decode_body buf now)

  -- An axis as it is after the way over the wire.
  abbrev pub quantised : F.Carrier → F.Carrier
  quantised v = int16_to_axis (axis_to_int16 v)

  round_axis-uint16 : (x : F.wide.Carrier) → int16 (uint16 (round_axis x)) ≡ round_axis x
  unfolding round_axis
  round_axis-uint16 x =
      let w = F.wide in
      let up = w.to_int (F.add x (w.lit 1 2)) in
      let down = w.to_int (F.sub x (w.lit 1 2)) in
      if_cases (λ a. int16 (uint16 a) ≡ a) (w.le (w.of_int (pos 0)) x) (to_int16 up) (to_int16 down)
        (λ _. int16-uint16 up) (λ _. int16-uint16 down)

  axis_to_int16-uint16 : (v : F.Carrier) → int16 (uint16 (axis_to_int16 v)) ≡ axis_to_int16 v
  unfolding axis_to_int16
  axis_to_int16-uint16 v = round_axis-uint16 (scale_axis v)

  quantised-bytes :
      (v : F.Carrier)
      → int16_to_axis (
          int16 (uint16_of (uint16 (axis_to_int16 v) % 256) (uint16 (axis_to_int16 v) / 256 % 256)))
        ≡ quantised v
  quantised-bytes v =
      ap (λ a. int16_to_axis (int16 a)) (uint16_of-bytes _ (uint16-max _))
      ∙ ap int16_to_axis (axis_to_int16-uint16 v)

  -- A command of 32-bit buttons and sequence number, encoded and decoded again: the buttons and the
  -- sequence number are the same, each axis is the one for the `int16` that it was encoded as, and
  -- the instant is that of the decoding.
  pub decode-encode :
      (cmd : InputCommand F.Carrier) (now : ℕ)
      → IsUint32 cmd.buttons
      → IsUint32 cmd.seq
      → decode_input_command (encode_input_command cmd) now
        ≡ ok (record cmd {
          lx = quantised cmd.lx;
          ly = quantised cmd.ly;
          rx = quantised cmd.rx;
          ry = quantised cmd.ry;
          timestamp = now;
        })
  unfolding decode_input_command decode_body encode_input_command put_uint16 put_uint32
  decode-encode cmd now hb hs = rw (uint32_of-bytes cmd.buttons hb) (
      rw (uint32_of-bytes cmd.seq hs) (
        rw (quantised-bytes cmd.lx) (
          rw (quantised-bytes cmd.ly)
            (rw (quantised-bytes cmd.rx) (rw (quantised-bytes cmd.ry) refl)))))
