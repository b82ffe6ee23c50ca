-- ===== src/Nxbt.antt =====
-- playgate-host/internal/input/nxbt/target.go and protocol.go: the game pad's target. The socket is
-- not modelled; JSON is a parameter, and a line is its bytes.
pub mod Flush
pub mod Backoff
mod Examples
use playgate.Common.{
  ℕ, suc, ◌+◌, ◌*◌, Bool, true, false, not, ◌&&◌, Option, none, some, String, str_eq, List, [], ◌∷◌,
  ◌++◌, ◌==◌, if◌then◌else◌,
}
use playgate.Common.Int.{ℤ, pos, ltb_ℤ, leb_ℤ, eqb_ℤ}
use playgate.Common.Time.{time_sub, times_unit}
use playgate.Common.Float.{Float32}
use playgate.Common.Channel.{offer}
use playgate.Common.Result.{Result, ok, err}
use playgate.Core.{InputCommand}
use playgate.Metrics.{Histogram, observe}
use playgate.Coalescer.{Coalescer, push, poll, until_ready}

-- `core.TargetStatus`.
pub data TargetStatus : Type 0 where
  status_unknown status_connecting status_connected status_disconnected : TargetStatus

pub data Inbound : Type 0 where
  status_message : String → String → Inbound
  pong_message : Inbound
  input_latency : ℤ → Inbound

pub data InboundError : Type 0 where
  bad_envelope bad_status bad_latency : InboundError
  unknown_type : String → InboundError

-- `json.Unmarshal` of a line into `envelope`, `statusMsg` and `inputLatMsg`.
pub record LineJson : Type 0 where
  pub envelope : List ℕ → Option String
  pub status : List ℕ → Option (String × String)
  pub latency : List ℕ → Option ℤ

unfoldable pub status_inbound : Option (String × String) → Result InboundError Inbound
status_inbound none = err bad_status
status_inbound (some (state, detail)) = ok (status_message state detail)

unfoldable pub latency_inbound : Option ℤ → Result InboundError Inbound
latency_inbound none = err bad_latency
latency_inbound (some us) = ok (input_latency us)

unfoldable pub decode_type : LineJson → Option String → List ℕ → Result InboundError Inbound
unfolding status_inbound latency_inbound
decode_type j none line = err bad_envelope
decode_type j (some t) line =
    if str_eq t "status"
    then status_inbound (j.status line)
    else if str_eq t "pong"
    then ok pong_message
    else if str_eq t "input_lat"
    then latency_inbound (j.latency line)
    else err (unknown_type t)

-- `decodeInbound`.
unfoldable pub decode_inbound : LineJson → List ℕ → Result InboundError Inbound
unfolding decode_type
decode_inbound j line = decode_type j (j.envelope line) line

-- `wireStateToTarget`.
unfoldable pub wire_state_to_target : String → TargetStatus
wire_state_to_target s =
    if str_eq s "connecting"
    then status_connecting
    else if str_eq s "connected"
    then status_connected
    else if str_eq s "disconnected"
    then status_disconnected
    else status_unknown

abbrev pub status_capacity : ℕ
status_capacity = 4

-- The fields of `Target` that change: the channel of statuses, the limiter and the two histograms,
-- either of which may be missing.
pub record Target (Axis : Type 0) : Type 0 where
  pub statuses : List TargetStatus
  pub coalescer : Coalescer (InputCommand Axis)
  pub latency : Option Histogram
  pub daemon_latency : Option Histogram

unfoldable pub observe_latency : Option Histogram → ℤ → Option Histogram
observe_latency none us = none
observe_latency (some h) us = some (if ltb_ℤ us (pos 0) then h else observe h (times_unit 1_000 us))

module _ {Axis : Type 0} where
  -- `Send`.
  unfoldable pub send : Target Axis → InputCommand Axis → Target Axis
  send t cmd = record t { coalescer = push t.coalescer cmd }

  -- `emitStatus`.
  unfoldable pub emit_status : Target Axis → TargetStatus → Target Axis
  emit_status t s = record t { statuses = offer status_capacity t.statuses s }

  unfoldable pub dispatch : Target Axis → Result InboundError Inbound → Target Axis
  unfolding emit_status observe_latency wire_state_to_target
  dispatch t (err e) = t
  dispatch t (ok (status_message state detail)) = emit_status t (wire_state_to_target state)
  dispatch t (ok pong_message) = t
  dispatch t (ok (input_latency us)) = record t {
    daemon_latency = observe_latency t.daemon_latency us;
  }

  -- `handleInbound`; an error is logged alone.
  unfoldable pub handle_inbound : LineJson → Target Axis → List ℕ → Target Axis
  unfolding dispatch decode_inbound
  handle_inbound j t [] = t
  handle_inbound j t (b ∷ line) = dispatch t (decode_inbound j (b ∷ line))

-- `inputMsg`.
pub record InputMsg (Axis : Type 0) : Type 0 where
  pub buttons : ℕ
  pub lx : Axis
  pub ly : Axis
  pub rx : Axis
  pub ry : Axis

module _ (F : Float32) where
  -- The message that `writeInput` sends: up and down are exchanged.
  unfoldable pub input_msg : InputCommand F.Carrier → InputMsg F.Carrier
  input_msg cmd = record {
    buttons = cmd.buttons;
    lx = cmd.lx;
    ly = F.neg cmd.ly;
    rx = cmd.rx;
    ry = F.neg cmd.ry;
  }

  unfoldable pub observe_since : Option Histogram → ℕ → ℕ → Option Histogram
  observe_since none stamp now = none
  observe_since (some h) stamp now = some (if stamp == 0 then h else observe h (time_sub now stamp))

  -- `writeInput` of a write that succeeds.
  unfoldable pub write_input :
      Target F.Carrier → InputCommand F.Carrier → ℕ → Target F.Carrier × InputMsg F.Carrier
  unfolding input_msg observe_since
  write_input t cmd now =
      (record t { latency = observe_since t.latency cmd.timestamp now }, input_msg cmd)

abbrev pub reconnect_base : ℤ
reconnect_base = pos 500_000_000

abbrev pub reconnect_max : ℤ
reconnect_max = pos 30_000_000_000

-- `minDuration`.
unfoldable pub min_duration : ℤ → ℤ → ℤ
min_duration a b = if ltb_ℤ a b then a else b
