-- ===== src/Host/Examples.antt =====
-- Two viewers, of whom one comes late and one goes.
use playgate.Common.{ℕ, ◌*◌, ◌≡◌, refl, Bool, true, false, some, List, [], ◌∷◌, All, arith}
use playgate.Common.Int.{pos, ◌≤ℤ◌, wrap64, of_bits, sub64, ◌-ℤ◌}
use playgate.Core.{EncodedPacket}
use playgate.Rtc.{command_buffer, new_peer, write_sample, sample_duration}
use playgate.Host.Router.{
  Sink, VideoRouter, new_video_router, find_sink, is_found, add_sink, delete_sink, remove_sink,
  deliver, forward,
}
use playgate.Host.Broadcast.{
  RouterEvent, packet, joins, leaves, packets, timed, from_keyframe, router_step, router_run,
  router_run-track,
}
use playgate.Host.Feed.{
  ViewerEnvelope, new_conn_manager, set_session, lookup, delete_key, set_peer, apply_answer,
  start_viewer, dispatch_message, handle_feed_message, end_viewer,
}
use playgate.Host.Answers.{
  FeedEvent, message, peer_set, viewer_ends, feed_step, feed_run, Once, feed_run-Once,
}

run_open : ℕ
unfolding command_buffer new_peer write_sample sample_duration find_sink is_found add_sink
    delete_sink remove_sink deliver forward timed from_keyframe router_step router_run sub64 wrap64
    of_bits ◌-ℤ◌
run_open = 0

feed_open : ℕ
unfolding set_session lookup delete_key set_peer apply_answer start_viewer dispatch_message
    handle_feed_message end_viewer feed_step feed_run
feed_open = 0

abbrev viewer : ℕ → Sink ℕ
viewer i = record { id = i; peer = new_peer (pos 0); track = [] }

abbrev frame : ℕ → Bool → EncodedPacket
frame n key = record { payload = n ∷ []; pts = pos (n * 1000); is_keyframe = key }

abbrev one_viewer : VideoRouter ℕ
one_viewer = add_sink new_video_router (viewer 1)

abbrev show : List (RouterEvent ℕ)
show =
    packet (frame 0 false)
    ∷ joins (viewer 2)
    ∷ packet (frame 1 true)
    ∷ leaves 2
    ∷ packet (frame 2 false)
    ∷ []

shown :
    from_keyframe (timed (pos 0) false (packets show))
    ≡ (1 ∷ [], pos 1000) ∷ (2 ∷ [], pos 1000) ∷ []
unfolding run_open
shown = refl

router_run-track_example :
    (s' : Sink ℕ) × (find_sink (router_run one_viewer show).sinks 1 ≡ some s')
    × (s'.track ≡ (1 ∷ [], pos 1000) ∷ (2 ∷ [], pos 1000) ∷ [])
    × All (λ q. pos 1 ≤ℤ q.1) (timed (pos 0) false (packets show))
unfolding run_open
router_run-track_example =
    router_run-track one_viewer show (viewer 1) 1 refl refl refl
      (tt, (tt, (tt, ((λ e. omega (arith, e)), (tt, tt)))))

abbrev hello : ViewerEnvelope
hello = record { kind = "hello"; message_type = ""; sdp = ""; viewer_id = "ann" }

abbrev answer : ViewerEnvelope
answer = record { kind = ""; message_type = "answer"; sdp = "v=0"; viewer_id = "ann" }

-- The feed is read again from its start, so that the answer comes twice.
abbrev replayed : List FeedEvent
replayed =
    message (some hello)
    ∷ message (some answer)
    ∷ peer_set 0
    ∷ message (some hello)
    ∷ message (some answer)
    ∷ message (some answer)
    ∷ viewer_ends "ann"
    ∷ message (some hello)
    ∷ peer_set 1
    ∷ message (some answer)
    ∷ []

answered_once : (feed_run new_conn_manager replayed).applied ≡ (0, "v=0") ∷ (1, "v=0") ∷ []
unfolding feed_open
answered_once = refl

feed_run-Once_example : Once (feed_run new_conn_manager replayed)
feed_run-Once_example = feed_run-Once replayed
