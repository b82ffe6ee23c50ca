-- ===== src/Encoder/Restart.antt =====
-- The restarts of ffmpeg, as steps of the loop that runs it.
use playgate.Common.{
  ℕ, ◌≡◌, ◌⊎◌, inl, inr, refl, Bool, true, false, not, ◌&&◌, Option, none, some, List, [], ◌∷◌,
  ◌==◌, if◌then◌else◌,
}
use playgate.Common.Int.{ℤ, pos, leb_ℤ, ltb_ℤ, eqb_ℤ}
use playgate.Common.Time.{time_sub}
use playgate.Annexb.{AccessUnit}
use playgate.Encoder.Args.{Options}
use playgate.Encoder.{Encoder, set_bitrate, force_keyframe, force_keyframe_debounce, emit_packet}

-- The encoder and the bitrate that ffmpeg runs with, where it runs.
pub record Process : Type 0 where
  pub encoder : Encoder
  pub running : Option ℤ

-- What happens to it: the calls, an access unit, the receive of the restart signal, after which
-- `runSubprocess` stops ffmpeg, and the launch, which reads the options.
pub data EncoderEvent : Type 0 where
  sets_bitrate : ℤ → EncoderEvent
  forces_keyframe : ℕ → EncoderEvent
  emits : AccessUnit → EncoderEvent
  stops : EncoderEvent
  launches : EncoderEvent

-- `runSubprocess` at its receive from `restart`, and at its start.
unfoldable pub stop : Process → Process
stop h =
    let e : Encoder = h.encoder in
    record {
      encoder = record e { restart = false };
      running = if e.restart then none else h.running;
    }

unfoldable pub launch : Process → Process
launch h =
    let e : Encoder = h.encoder in
    let o : Options = e.opts in
    record h { running = elim h.running [ none ↦ some o.bitrate | some b ↦ some b ] }

unfoldable pub encoder_step : Process → EncoderEvent → Process
unfolding stop launch set_bitrate force_keyframe emit_packet
encoder_step h (sets_bitrate bps) = record h { encoder = set_bitrate h.encoder bps }
encoder_step h (forces_keyframe now) = record h { encoder = force_keyframe h.encoder now }
encoder_step h (emits au) = record h { encoder = emit_packet h.encoder au }
encoder_step h stops = stop h
encoder_step h launches = launch h

unfoldable pub encoder_run : Process → List EncoderEvent → Process
unfolding encoder_step
encoder_run h [] = h
encoder_run h (ev ∷ evs) = encoder_run (encoder_step h ev) evs

-- ffmpeg does not run, or it runs with the bitrate of the options, or a restart is due.
abbrev pub Applied : Bool → ℤ → Option ℤ → Type 0
Applied restart bitrate none = Unit
Applied restart bitrate (some b) = (b ≡ bitrate) ⊎ (restart ≡ true)

abbrev pub IsApplied : Process → Type 0
IsApplied h = Applied h.encoder.restart h.encoder.opts.bitrate h.running

Applied-due : (bitrate : ℤ) (running : Option ℤ) → Applied true bitrate running
Applied-due bitrate none = tt
Applied-due bitrate (some b) = inr refl

set_bitrate-IsApplied :
    (h : Process) (bps : ℤ)
    → IsApplied h
    → IsApplied (record h { encoder = set_bitrate h.encoder bps })
unfolding set_bitrate
set_bitrate-IsApplied h bps a =
    go (not (leb_ℤ bps (pos 0)) && not (eqb_ℤ h.encoder.opts.bitrate bps))
  where
    go :
        (b : Bool)
        → Applied
            (if b then true else h.encoder.restart)
            (if b then bps else h.encoder.opts.bitrate)
            h.running
    go true = Applied-due bps h.running
    go false = a

force_keyframe-IsApplied :
    (h : Process) (now : ℕ)
    → IsApplied h
    → IsApplied (record h { encoder = force_keyframe h.encoder now })
unfolding force_keyframe
force_keyframe-IsApplied h now a = go (
    not (h.encoder.last_force == 0)
    && ltb_ℤ (time_sub now h.encoder.last_force) force_keyframe_debounce)
  where
    go :
        (b : Bool)
        → Applied (if b then h.encoder.restart else true) h.encoder.opts.bitrate h.running
    go true = a
    go false = Applied-due h.encoder.opts.bitrate h.running

stop-IsApplied :
    (restart : Bool) (bitrate : ℤ) (running : Option ℤ)
    → Applied restart bitrate running
    → Applied false bitrate (if restart then none else running)
stop-IsApplied true bitrate running a = tt
stop-IsApplied false bitrate running a = a

launch-IsApplied :
    (restart : Bool) (bitrate : ℤ) (running : Option ℤ)
    → Applied restart bitrate running
    → Applied restart bitrate (elim running [ none ↦ some bitrate | some b ↦ some b ])
launch-IsApplied restart bitrate none a = inl refl
launch-IsApplied restart bitrate (some b) a = a

encoder_step-IsApplied :
    (h : Process) (ev : EncoderEvent) → IsApplied h → IsApplied (encoder_step h ev)
unfolding encoder_step stop launch emit_packet
encoder_step-IsApplied h (sets_bitrate bps) a = set_bitrate-IsApplied h bps a
encoder_step-IsApplied h (forces_keyframe now) a = force_keyframe-IsApplied h now a
encoder_step-IsApplied h (emits au) a = a
encoder_step-IsApplied h stops a =
    stop-IsApplied h.encoder.restart h.encoder.opts.bitrate h.running a
encoder_step-IsApplied h launches a =
    launch-IsApplied h.encoder.restart h.encoder.opts.bitrate h.running a

-- From a state where ffmpeg does not run, or runs with the bitrate that was set, or a restart is due,
-- any calls, access units, stops and launches in any order lead to such a state again.
pub encoder_run-IsApplied :
    (h : Process) (evs : List EncoderEvent) → IsApplied h → IsApplied (encoder_run h evs)
unfolding encoder_run
encoder_run-IsApplied h [] a = a
encoder_run-IsApplied h (ev ∷ evs) a =
    encoder_run-IsApplied (encoder_step h ev) evs (encoder_step-IsApplied h ev a)
