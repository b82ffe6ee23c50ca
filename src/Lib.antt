-- ===== src/Lib.antt =====
-- PlayGate lets remote viewers take turns at a game pad. A server sells turns: a host registers,
-- opens a room and issues codes; a viewer redeems a code for a signed session token. The host
-- checks the token, gives control to one viewer at a time and queues the others. It captures and
-- encodes the screen, sends the pictures to every viewer, and takes the game pad's commands of the
-- viewer in control to the console.
--
-- Abr: playgate-host/internal/abr/abr.go. The configuration and `Observe`, cut into `note_loss`
--   (the clean window), `decide` (the cooldown and the direction) and `commit` (the bounds and the
--   least change). Abr/Bounds, Pace and Direction are about the target, the time between changes,
--   and which way it moves.
-- Annexb: playgate-host/internal/encoder/ffmpeg/annexb.go. `AnnexBSplitter` is its buffer; the loop
--   of `drain` is `scan` over the units with its variables in `Scan`. Annexb/Nalus is about the
--   units, Annexb/Units about what an access unit holds, and Annexb/Front, Kept and Stream about
--   the bytes of a stream in chunks.
-- Encoder: encoder.go, and in Encoder/Args and Encoder/Command args.go and codec.go, of the same
--   directory. Channels are lists; Encoder/Frames has the way in, Encoder/Keyframes the queue on
--   the way out, Encoder/Restart the restarts of ffmpeg as steps, and Encoder/Command the argument
--   vector of a launch.
-- Core: playgate-host/internal/core/types.go, the frames, packets and commands.
-- Rtc: playgate-host/internal/rtc. Rtc/Wire is input_codec.go; Rtc is peer.go and pump.go, as far
--   as they do not call the WebRTC library. Rtc/Order and Rtc/Input are about the commands.
-- Host: playgate-host/internal/host. Host/Router is router.go; Host/Sampling is abr.go and
--   playgate-host/internal/rtc/stats.go; Host/Feed is connect.go, the sessions that the viewers'
--   messages start and the answers that go to their peers; Host/Sink is sink.go, the last stage
--   before the game pad. Host/Broadcast is about what a viewer gets, Host/Bitrates about what the
--   encoder is given, Host/Answers about a feed that is read more than once, and Host/Masking about
--   disabled buttons.
-- Capture: playgate-host/internal/capture/v4l2/format.go and source.go. Capture/Negotiation is
--   about the format of a start and its calls of the device, Capture/Rows about the copies of
--   padded frames in Capture/Frames.
-- Nxbt: playgate-host/internal/input/nxbt/target.go and protocol.go. Nxbt/Flush is the loop that
--   drains the limiter, Nxbt/Backoff the delays between connections.
-- Heartbeat: playgate-host/internal/heartbeat/heartbeat.go, with the server's handler at the other
--   end in Heartbeat/Kicks.
-- Metrics: playgate-host/internal/metrics/latency.go. Metrics/Window relates the ring to the
--   sequence of all observations.
-- Config: playgate-host/internal/config/config.go.
-- Coalescer: playgate-host/internal/input/nxbt/ratelimit.go, the limiter between the gate of the
--   viewer in control and the game pad.
-- Jwt: playgate-host/internal/session/jwt.go and playgate-server/internal/auth/jwt.go. A token
--   is its bytes; `parse_and_verify` is the host's check and `issue_jwt` the server's signing.
-- Session: playgate-host/internal/session/session.go and event.go. The state is `Manager`, with a
--   store of entries and one of gate handles in place of pointers. A critical section is one
--   function, and a tick's check with its event is one; Session/Control has those of claims,
--   endings, releases and the shutdown, and Session/Gates those of the gates, where `gate_receive`
--   has what happens between the sections of a round. Session/Steps has them as a step relation, so
--   that timers, watchers, gates and callers interleave freely. Session/Fifo relates it to a plain
--   queue of claims.
-- Server: playgate-server/internal/queue/queue.go (Server/Queue), db/db.go and db/schema.go
--   (Server/Db), and api/server.go and api/helpers.go (Server/Api, with the handlers in
--   Server/Api/Rooms and Server/Api/Tokens). The tables are lists of rows; each statement is a
--   function that may fail by a key, a reference or a driver error. A handler is its reads, which
--   end the request or hand over, and then its writes, and runs without others; `redeem_among`,
--   `revoke_among`, `kick_among` and `heartbeat_among` are those handlers with what other requests
--   do between their statements, as Server/Interleaved and Server/Flags have them; Server/Lifecycle
--   is about statements in any order.
-- The parts meet in Server/Verified, where a redemption's token goes through the host's check to a
-- claim; in Heartbeat/Kicks, where the server's answers meet the session manager; in
-- Host/Bitrates, where a checked configuration bounds the bitrates; and in Host/Router, whose sinks
-- are the peers.
--
-- Numbers: `int` and `int64` are integers with the wrap-around of 64 bits where the code adds or
-- multiplies; an instant is its nanoseconds from a fixed origin; `time.Sub` is cut at its bounds.
-- `float64` and `float32` are interfaces (Common/Float) of which only the operations are known.
-- Bytes are numbers below 256. Loops run over lists or a count but for two: `split_loop` has fuel
-- one above the buffer's length, since each round starts behind a start code, and `flush` has fuel
-- for three polls, since after a wait of 0 the next poll sends. Both have a theorem that this is
-- enough.
--
-- Parameters: base64, JSON and ed25519 (`Packages`), SQLite's ORDER BY and its comparison of times
-- (`Sqlite`), the lines of the game pad's daemon (`LineJson`), random ids, secrets and codes,
-- clocks, the texts of numbers and the small letters of a text, JSON bodies as they are read, and
-- which database calls meet a driver error. What is asked of the packages is in `Documented`.
--
-- Not modelled: sockets, HTTP routing, files, YAML and key loading, the calls of the WebRTC
-- library, the calls of the capture device, audio, the ffmpeg process, the errors of a write to the
-- game pad's daemon and of the signing of a token, and the signalling client, which are I/O or
-- cannot occur; the goroutines that only carry values from one channel to the next; and the
-- programs that are not in Go.
pub mod Common
pub mod Core
pub mod Abr
pub mod Jwt
pub mod Coalescer
pub mod Metrics
pub mod Config
pub mod Session
pub mod Server
pub mod Annexb
pub mod Encoder
pub mod Rtc
pub mod Nxbt
pub mod Capture
pub mod Host
pub mod Heartbeat
