-- ===== src/Session/Examples.antt =====
-- The manager with two viewers and one gate each, and numbers for commands.
use playgate.Common.{
  ℕ, ◌++◌, ◌==◌, ◌⊎◌, if◌then◌else◌, ◌≡◌, ◌≢◌, refl, true, false, some, [], ◌∷◌, All, drop, length,
}
use playgate.Common.Int.{pos, ◌+ℤ◌, wrap64}
use playgate.Common.Time.{seconds}
use playgate.Common.Result.{ok}
use playgate.Jwt.{Claims}
use playgate.Session.{
  policy_queue, expired, Config, Manager, update, try_send, new_manager, emit_event, set_entry,
  close_gates, cancel, close_handle, close_handles, new_waiting,
}
use playgate.Session.Control.{
  new_active, start_session, enqueue, claim_with, claim_locked, claim, is_active, end_session,
  vacate, stop_entry, promote, transfer_gates, release, shutdown,
}
use playgate.Session.Gates.{
  gate, gate_receive, deliver, touch_idle, touch_found, holds_control, find_entry, find_queued,
  add_handle, new_handle,
}
use playgate.Session.Invariant.{Inv}
use playgate.Session.Steps.{Reach, here, next, claims, gates, Reach-Inv}
use playgate.Session.Fifo.{
  offer, outcome, view, kicks, claim_locked-offer, view-kicks, claim_locked-served,
}
use playgate.Session.Promotion.{promoted_session_is_dead}
use playgate.Session.Gating.{end_session_closes, Passes, at_test, at_send, gate_receive_lem}
use playgate.Session.Shutdown.{shutdown_promotes}

abbrev cfg : Config
cfg = record {
  room_id = "room";
  idle_timeout = pos 30_000_000_000;
  tick_interval = pos 1_000_000_000;
  queue_policy = policy_queue;
  max_queue_depth = pos 2;
}

abbrev alice : Claims
alice = record {
  issuer = "playgate-server";
  issued_at = pos 0;
  expires_at = pos 60;
  room_id = "room";
  viewer_id = "alice";
  session_seconds = pos 60;
}

abbrev bob : Claims
bob = record alice { viewer_id = "bob" }

abbrev fresh : Manager ℕ
fresh =
    new_manager cfg (λ _. new_waiting alice)
      (λ _. record { viewer_id = ""; out = []; closed = true })

abbrev alone : Manager ℕ
alone = (claim fresh (ok alice) 0).0

-- Alice in control, with a gate, and bob behind her.
abbrev both : Manager ℕ
both = gate (claim alone (ok bob) 0).0 "alice"

run_open : ℕ
unfolding end_session vacate stop_entry promote transfer_gates close_gates cancel close_handle
    close_handles gate_receive deliver touch_idle touch_found new_manager claim claim_locked
    claim_with start_session enqueue emit_event new_active new_waiting update gate add_handle
    new_handle set_entry find_entry find_queued holds_control is_active seconds wrap64 ◌+ℤ◌
run_open = 0

both-Reach : Reach fresh both
both-Reach = next (next (next here (claims (ok alice) 0)) (claims (ok bob) 0)) (gates "alice")

both-Inv : Inv both
both-Inv = Reach-Inv cfg _ _ both-Reach

Reach-Inv_example : Inv both
Reach-Inv_example =
    Reach-Inv cfg (λ _. new_waiting alice) (λ _. record { viewer_id = ""; out = []; closed = true })
      both-Reach

claim_locked-offer_example :
    (view (claim_locked both bob 5).0
      ≡ (offer both.cfg.queue_policy both.cfg.max_queue_depth (view both) bob).0)
    × (outcome (claim_locked both bob 5).1
        ≡ (offer both.cfg.queue_policy both.cfg.max_queue_depth (view both) bob).1)
claim_locked-offer_example = claim_locked-offer both bob 5 both-Inv

view-kicks_example : view (kicks 1 both 9) ≡ drop 1 (view both)
view-kicks_example = view-kicks 1 both 9 both-Inv

claim_locked-served_example :
    view (kicks (length (view both)) (claim_locked both bob 5).0 5) ≡ bob ∷ []
unfolding run_open
claim_locked-served_example = claim_locked-served both bob 5 both-Inv refl

promoted_session_is_dead_example :
    (((end_session both 0 expired 7).entries 1).cancelled ≡ true)
    × ((end_session both 0 expired 7).active ≡ some 2)
    × (((end_session both 0 expired 7).entries 2).claims ≡ bob)
    × (release (end_session both 0 expired 7) 1 8 ≡ end_session both 0 expired 7)
unfolding run_open
promoted_session_is_dead_example =
    promoted_session_is_dead both 0 1 [] expired 7 8 both-Inv refl refl

end_session_closes_example :
    All (λ h. ((end_session both 0 expired 7).handles h).closed ≡ true) (both.entries 0).gates
unfolding run_open
end_session_closes_example = end_session_closes both 0 expired 7 refl

-- The session of alice ends between two sections of her gate's round.
abbrev ends_at : ℕ → ℕ → Manager ℕ → Manager ℕ
ends_at n i m = if i == n then end_session m 0 expired 7 else m

ended_before_send : ((gate_receive (ends_at 3) both 0 42 7).handles 0).out ≡ []
unfolding run_open try_send
ended_before_send = refl

ended_never : ((gate_receive (ends_at 9) both 0 42 7).handles 0).out ≡ 42 ∷ []
unfolding run_open try_send
ended_never = refl

gate_receive_lem_example :
    ((Passes (at_test (ends_at 3) both 0 7) (at_send (ends_at 3) both 0 7) "alice" 0
        × (((gate_receive (ends_at 3) both 0 42 7).handles 0).out
            ≡ ((at_send (ends_at 3) both 0 7).handles 0).out ++ 42 ∷ []))
      ⊎ (¬ Passes (at_test (ends_at 3) both 0 7) (at_send (ends_at 3) both 0 7) "alice" 0
          × (((gate_receive (ends_at 3) both 0 42 7).handles 0).out
              ≡ ((at_send (ends_at 3) both 0 7).handles 0).out)))
    × (((gate_receive (ends_at 3) both 0 42 7).handles 0).closed
        ≡ ((at_send (ends_at 3) both 0 7).handles 0).closed)
    × ((j : ℕ)
        → j ≢ 0
        → (gate_receive (ends_at 3) both 0 42 7).handles j
          ≡ (at_send (ends_at 3) both 0 7).handles j)
    × ((gate_receive (ends_at 3) both 0 42 7).active ≡ (at_send (ends_at 3) both 0 7).active)
    × ((gate_receive (ends_at 3) both 0 42 7).queue ≡ (at_send (ends_at 3) both 0 7).queue)
unfolding run_open try_send
gate_receive_lem_example = gate_receive_lem (ends_at 3) both 0 42 7

shutdown_promotes_example :
    ((end_session (shutdown both) 0 expired 7).active ≡ some 2)
    × (((end_session (shutdown both) 0 expired 7).entries 2).cancelled ≡ false)
    × ((shutdown both).stopped ≡ true)
unfolding run_open
shutdown_promotes_example = shutdown_promotes both 0 1 [] expired 7 both-Inv refl refl
