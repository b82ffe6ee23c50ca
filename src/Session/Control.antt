-- ===== src/Session/Control.antt =====
-- playgate-host/internal/session/session.go: who is in control, from `Claim` to `endSession`, and the
-- shutdown.
use playgate.Common.{
  ℕ, suc, ◌/◌, Bool, true, false, ◌&&◌, Option, none, some, List, [], ◌∷◌, ◌++◌, ◌==◌,
  if◌then◌else◌, length, str_eq,
}
use playgate.Common.Int.{pos, pos_part, ◌+ℤ◌, ◌-ℤ◌, ltb_ℤ, leb_ℤ}
use playgate.Common.Time.{seconds, second}
use playgate.Common.Result.{Result, ok, err}
use playgate.Jwt.{Claims, JwtError}
use playgate.Session.{
  Policy, EventKind, SessionEntry, ClaimError, Manager, update, new_event, remove_first, contains,
  new_waiting, emit_event, set_entry, close_gates, cancel, policy_queue, policy_reject, granted,
  expired, idle_kicked, queued, tick, bad_token, room_mismatch, controller_active, queue_full,
}

module _ {Cmd : Type 0} where
  unfoldable pub new_active : Manager Cmd → Claims → ℕ → SessionEntry
  new_active m c now =
      let timed = ltb_ℤ (pos 0) m.cfg.idle_timeout in
      record {
        viewer_id = c.viewer_id;
        claims = c;
        cancelled = false;
        deadline = some (pos now +ℤ seconds c.session_seconds);
        idle_timer = if timed then some (pos now +ℤ m.cfg.idle_timeout) else none;
        idle_duration = if timed then m.cfg.idle_timeout else pos 0;
        gates_done = false;
        gates = [];
      }

  -- `startSessionLocked`: the new entry's number is `m.next_entry`.
  unfoldable pub start_session : Manager Cmd → Claims → ℕ → Manager Cmd
  start_session m c now =
      emit_event
        (record m {
          entries = update m.entries m.next_entry (new_active m c now);
          next_entry = suc m.next_entry;
          active = some m.next_entry;
        })
        (new_event granted c.viewer_id c.session_seconds 0 now)

  -- `enqueueLocked`.
  unfoldable pub enqueue : Manager Cmd → Claims → ℕ → Manager Cmd
  enqueue m c now =
      let queue = m.queue ++ m.next_entry ∷ [] in
      emit_event
        (record m {
          entries = update m.entries m.next_entry (new_waiting c);
          next_entry = suc m.next_entry;
          queue = queue;
        })
        (new_event queued c.viewer_id (pos 0) (length queue) now)

  -- The part of `Claim` under the lock, on who is active and the policy. The session that is
  -- returned points to the new entry.
  unfoldable pub claim_with :
      Option ℕ → Policy → Manager Cmd → Claims → ℕ → Manager Cmd × Result ClaimError ℕ
  claim_with none p m c now = (start_session m c now, ok m.next_entry)
  claim_with (some _) policy_reject m c now = (m, err controller_active)
  claim_with (some _) policy_queue m c now =
      if ltb_ℤ (pos 0) m.cfg.max_queue_depth && leb_ℤ m.cfg.max_queue_depth (pos (length m.queue))
      then (m, err queue_full)
      else (enqueue m c now, ok m.next_entry)

  unfoldable pub claim_locked : Manager Cmd → Claims → ℕ → Manager Cmd × Result ClaimError ℕ
  claim_locked m c now = claim_with m.active m.cfg.queue_policy m c now

  -- `Claim`, on what `ParseAndVerify` says of the token.
  unfoldable pub claim :
      Manager Cmd → Result JwtError Claims → ℕ → Manager Cmd × Result ClaimError ℕ
  claim m (err e) now = (m, err (bad_token e))
  claim m (ok c) now =
      if str_eq c.room_id m.cfg.room_id then claim_locked m c now else (m, err room_mismatch)

  -- The gates of the queued entry `i` go over to the new one.
  unfoldable pub transfer_gates : Manager Cmd → ℕ → ℕ → Manager Cmd
  transfer_gates m i fresh =
      let old : SessionEntry = m.entries i in
      let new : SessionEntry = m.entries fresh in
      let given = set_entry m fresh (record new { gates = old.gates }) in
      let emptied : SessionEntry = given.entries i in
      set_entry given i (record emptied { gates = [] })

  -- Promotion of the queue's head in `endSession`: a fresh entry takes over its claims and gates.
  unfoldable pub promote : Manager Cmd → List ℕ → ℕ → Manager Cmd
  promote m [] now = m
  promote m (i ∷ rest) now =
      transfer_gates (start_session (cancel (record m { queue = rest }) i) (m.entries i).claims now)
        i m.next_entry

  -- The teardown of the active entry in `endSession`.
  unfoldable pub stop_entry : Manager Cmd → ℕ → Manager Cmd
  stop_entry m i =
      let e : SessionEntry = m.entries i in
      close_gates (cancel (set_entry m i (record e { idle_timer = none })) i) i

  -- Whether `i` is the active entry.
  unfoldable pub is_active : Manager Cmd → ℕ → Bool
  is_active m i = elim m.active [ none ↦ false | some a ↦ a == i ]

  -- `endSession` up to the promotion: control is free and the event is out.
  unfoldable pub vacate : Manager Cmd → ℕ → EventKind → ℕ → Manager Cmd
  unfolding stop_entry
  vacate m i kind now =
      let viewer = (m.entries i).viewer_id in
      emit_event (record (stop_entry m i) { active = none }) (new_event kind viewer (pos 0) 0 now)

  -- `endSession`.
  unfoldable pub end_session : Manager Cmd → ℕ → EventKind → ℕ → Manager Cmd
  end_session m i kind now =
      let told = vacate m i kind now in if is_active m i then promote told told.queue now else m

  unfoldable pub kick_with : Option ℕ → Manager Cmd → ℕ → Manager Cmd
  kick_with none m now = m
  kick_with (some i) m now = end_session m i idle_kicked now

  -- `KickCurrentController`.
  unfoldable pub kick : Manager Cmd → ℕ → Manager Cmd
  kick m now = kick_with m.active m now

  -- A waiting entry leaves the queue.
  unfoldable pub drop_queued : Manager Cmd → ℕ → Manager Cmd
  drop_queued m i = close_gates (cancel (record m { queue = remove_first i m.queue }) i) i

  -- `Release`, of the session whose entry is `i`.
  unfoldable pub release : Manager Cmd → ℕ → ℕ → Manager Cmd
  release m i now =
      if is_active m i
      then end_session m i expired now
      else if contains i m.queue
      then drop_queued m i
      else m

  -- One tick of `watchSession` for the entry `i`.
  unfoldable pub watch_tick : Manager Cmd → ℕ → ℕ → Manager Cmd
  watch_tick m i now =
      let e : SessionEntry = m.entries i in
      elim e.deadline [
        | none ↦ m
        | some d ↦
            let remaining = pos (pos_part (d -ℤ pos now) / second) in
            if is_active m i then emit_event m (new_event tick e.viewer_id remaining 0 now) else m
      ]

  unfoldable pub shut_all : Manager Cmd → List ℕ → Manager Cmd
  shut_all m [] = m
  shut_all m (i ∷ is) = shut_all (close_gates (cancel m i) i) is

  unfoldable pub shut_active : Option ℕ → Manager Cmd → Manager Cmd
  shut_active none m = m
  shut_active (some i) m = close_gates (cancel m i) i

  -- `Run`, once its context is done.
  unfoldable pub shutdown : Manager Cmd → Manager Cmd
  shutdown m = shut_all (shut_active m.active (record m { stopped = true })) m.queue
