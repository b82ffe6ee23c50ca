-- ===== src/Rtc/Examples.antt =====
-- Frames with axes in parts of 65534 in place of floats.
use playgate.Common.{ℕ, suc, ◌*◌, ◌/◌, ◌≡◌, refl, true, false, List, [], ◌∷◌, arith}
use playgate.Common.Int.{ℤ, pos, negsuc, ◌+ℤ◌, ◌-ℤ◌, ltb_ℤ, leb_ℤ, pos_part, neg_part, sub_ℕ}
use playgate.Common.Float.{Float64, Float32}
use playgate.Common.Channel.{offer, offer_latest}
use playgate.Common.Result.{ok}
use playgate.Core.{InputCommand}
use playgate.Rtc.Wire.{
  uint16, int16, to_int16, put_uint16, put_uint32, scale_axis, round_axis, axis_to_int16,
  int16_to_axis, encode_input_command, decode_body, decode_input_command, quantised, decode-encode,
}
use playgate.Rtc.{
  command_buffer, new_peer, is_stale, enqueue_command, on_decoded, on_input_message, close,
}
use playgate.Rtc.Order.{InOrder, receive_from}
use playgate.Rtc.Input.{
  InputEvent, message, receives, closes, input_step, input_run, input_run-InOrder,
}

abbrev unit : ℕ
unit = 65534

-- A function of the magnitude.
abbrev scaled : (ℕ → ℕ) → ℤ → ℤ
scaled f a = sub_ℕ (f (pos_part a)) (f (neg_part a))

abbrev times : ℤ → ℤ → ℤ
times a (pos n) = scaled (λ m. m * n / unit) a
times a (negsuc n) = scaled (λ m. m * suc n / unit) (sub_ℕ (neg_part a) (pos_part a))

abbrev fixed64 : Float64
fixed64 = record {
  Carrier = ℤ;
  lt = ltb_ℤ;
  le = leb_ℤ;
  mul = times;
  of_int = scaled (λ n. n * unit);
  to_int = scaled (λ n. n / unit);
  lit = λ m n. pos (m * unit / n);
}

abbrev fixed : Float32
fixed = record {
  wide = fixed64;
  Carrier = ℤ;
  widen = λ a. a;
  of_int = scaled (λ n. n * unit);
  div = λ a b. scaled (λ n. n * unit / pos_part b) a;
  neg = λ a. sub_ℕ (neg_part a) (pos_part a);
  add = ◌+ℤ◌;
  sub = ◌-ℤ◌;
}

-- A frame in which button A and the left stick half to the left are held.
abbrev held : ℕ → InputCommand ℤ
held seq = record {
  seq = seq;
  buttons = 1;
  lx = negsuc 32766;
  ly = pos 0;
  rx = pos 65534;
  ry = pos 70000;
  timestamp = 7;
}

run_open : ℕ
unfolding uint16 int16 to_int16 put_uint16 put_uint32 scale_axis round_axis axis_to_int16
    int16_to_axis encode_input_command decode_body decode_input_command command_buffer new_peer
    is_stale enqueue_command on_decoded on_input_message close receive_from input_step input_run
    offer offer_latest ◌+ℤ◌ ◌-ℤ◌
run_open = 0

right_stick : axis_to_int16 fixed (pos 70000) ≡ pos 32767
unfolding run_open
right_stick = refl

decode-encode_example :
    decode_input_command fixed (encode_input_command fixed (held 3)) 9
    ≡ ok (record (held 3) {
      lx = quantised fixed (negsuc 32766);
      ly = quantised fixed (pos 0);
      rx = quantised fixed (pos 65534);
      ry = quantised fixed (pos 70000);
      timestamp = 9;
    })
decode-encode_example = decode-encode fixed (held 3) 9 (omega arith) (omega arith)

-- The second frame comes late; the third is not binary.
abbrev traffic : List InputEvent
traffic =
    message false (encode_input_command fixed (held 5)) 10
    ∷ message false (encode_input_command fixed (held 4)) 11
    ∷ message true (encode_input_command fixed (held 6)) 12
    ∷ receives
    ∷ message false (encode_input_command fixed (held 7)) 13
    ∷ closes
    ∷ []

input_run-InOrder_example :
    InOrder
      (input_run fixed ([], new_peer (pos 0)) traffic).0
      (input_run fixed ([], new_peer (pos 0)) traffic).1
input_run-InOrder_example = input_run-InOrder fixed (pos 0) traffic
