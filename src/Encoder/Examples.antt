-- ===== src/Encoder/Examples.antt =====
-- An encoder whose queue is full, with a keyframe as its oldest packet.
use playgate.Common.{ℕ, ◌≡◌, refl, Bool, true, false, some, none, List, [], ◌∷◌, map, arith}
use playgate.Common.Int.{pos, wrap64, of_bits}
use playgate.Common.Time.{time_sub, saturate}
use playgate.Common.Channel.{offer}
use playgate.Core.{format_nv12}
use playgate.Annexb.{AccessUnit}
use playgate.Encoder.Args.{default_options, normalise, validate, check_format}
use playgate.Encoder.Command.{Format, build_args, HasFlag, set_bitrate-build_args}
use playgate.Common.Result.{ok}
use playgate.Common.Int.{eqb_ℤ}
use playgate.Common.{String, if◌then◌else◌}
use playgate.Encoder.{
  Encoder, set_bitrate, force_keyframe, div_duration, effective_fps, pts_of, replace_oldest,
  queue_packet, emit_packet, emit_all,
}
use playgate.Encoder.Keyframes.{Holds, emit_all-Holds}
use playgate.Encoder.Restart.{
  Process, EncoderEvent, sets_bitrate, forces_keyframe, emits, stops, launches, stop, launch,
  encoder_step, encoder_run, IsApplied, encoder_run-IsApplied,
}

run_open : ℕ
unfolding normalise validate check_format set_bitrate force_keyframe div_duration effective_fps
    pts_of replace_oldest queue_packet emit_packet emit_all stop launch encoder_step encoder_run
    offer wrap64 of_bits time_sub saturate
run_open = 0

abbrev fresh : Encoder
fresh = record {
  opts = default_options (pos 1280) (pos 720) (pos 30) format_nv12;
  packets = [];
  frames_out = 0;
  restart = false;
  last_force = 0;
}

abbrev picture : ℕ → Bool → AccessUnit
picture n key = record { data_bytes = n ∷ []; is_keyframe = key }

abbrev full : Encoder
full = emit_all fresh (picture 0 true ∷ picture 1 false ∷ picture 2 false ∷ picture 3 false ∷ [])

abbrev payloads : Encoder → List (List ℕ)
payloads e = map (λ p. p.payload) e.packets

-- The new keyframe is dropped, and the one in the queue comes behind the pictures that follow it.
keyframe_rotated :
    payloads (emit_packet full (picture 4 true)) ≡ (1 ∷ []) ∷ (2 ∷ []) ∷ (3 ∷ []) ∷ (0 ∷ []) ∷ []
unfolding run_open
keyframe_rotated = refl

emit_all-Holds_example :
    Holds full.packets (emit_all full (picture 4 true ∷ picture 5 false ∷ [])).packets
unfolding run_open
emit_all-Holds_example = emit_all-Holds full (picture 4 true ∷ picture 5 false ∷ []) (omega arith)

abbrev idle : Process
idle = record { encoder = fresh; running = none }

abbrev changes : List EncoderEvent
changes =
    launches
    ∷ sets_bitrate (pos 500_000)
    ∷ emits (picture 0 true)
    ∷ forces_keyframe 5
    ∷ stops
    ∷ launches
    ∷ []

new_rate : (encoder_run idle changes).running ≡ some (pos 500_000)
unfolding run_open
new_rate = refl

encoder_run-IsApplied_example : IsApplied (encoder_run idle changes)
encoder_run-IsApplied_example = encoder_run-IsApplied idle changes tt

-- Numbers as texts, as far as the example needs them.
abbrev digits : Format
digits = record {
  itoa = λ n. if eqb_ℤ n (pos 3_000_000) then "3000000" else "0";
  size_text = λ w h. "1280x720";
}

set_bitrate-build_args_example :
    (args : List String) × (build_args digits (set_bitrate fresh (pos 3_000_000)).opts ≡ ok args)
    × HasFlag "-b:v" "3000000" args
unfolding run_open
set_bitrate-build_args_example =
    set_bitrate-build_args digits fresh (pos 3_000_000) (omega arith) refl
