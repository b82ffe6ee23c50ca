-- ===== src/Session/Gates.antt =====
-- playgate-host/internal/session/session.go: `Gate`, its goroutine, and the idle timer that it resets.
use playgate.Common.{
  ℕ, suc, String, Bool, true, false, Option, none, some, List, [], ◌∷◌, ◌++◌, if◌then◌else◌, str_eq,
}
use playgate.Common.Int.{pos, ◌+ℤ◌}
use playgate.Session.{
  SessionEntry, GateHandle, Manager, update, try_send, gate_cap, close_handle, set_entry,
}

module _ {Cmd : Type 0} where
  unfoldable pub find_queued : Manager Cmd → String → List ℕ → Option ℕ
  find_queued m v [] = none
  find_queued m v (i ∷ is) = if str_eq (m.entries i).viewer_id v then some i else find_queued m v is

  -- Whether the viewer `v` holds control.
  unfoldable pub holds_control : Manager Cmd → String → Bool
  holds_control m v = elim m.active [ none ↦ false | some a ↦ str_eq (m.entries a).viewer_id v ]

  -- `findEntryLocked`.
  unfoldable pub find_entry : Manager Cmd → String → Option ℕ
  find_entry m v = if holds_control m v then m.active else find_queued m v m.queue

  unfoldable pub new_handle : String → Bool → GateHandle Cmd
  new_handle v closed = record { viewer_id = v; out = []; closed = closed }

  unfoldable pub add_handle : Manager Cmd → GateHandle Cmd → Manager Cmd
  add_handle m g = record m {
    handles = update m.handles m.next_handle g;
    next_handle = suc m.next_handle;
  }

  -- `Gate`, up to its goroutine: the handle's number is `m.next_handle`.
  unfoldable pub gate : Manager Cmd → String → Manager Cmd
  gate m v = elim (find_entry m v) [
    | none ↦ add_handle m (new_handle v true)
    | some i ↦
        let e : SessionEntry = m.entries i in
        if e.gates_done
        then add_handle m (new_handle v true)
        else set_entry (add_handle m (new_handle v false)) i
            (record e { gates = e.gates ++ m.next_handle ∷ [] })
  ]

  -- `touchIdle`.
  unfoldable pub touch_idle : Manager Cmd → ℕ → ℕ → Manager Cmd
  touch_idle m i now =
      let e : SessionEntry = m.entries i in
      elim e.idle_timer [
        | none ↦ m
        | some _ ↦ set_entry m i (record e { idle_timer = some (pos now +ℤ e.idle_duration) })
      ]

  unfoldable pub touch_found : Manager Cmd → Option ℕ → ℕ → Manager Cmd
  touch_found m none now = m
  touch_found m (some i) now = touch_idle m i now

  -- The forwarding of a command to the channel of handle `h`, under the handle's lock.
  unfoldable pub deliver : Manager Cmd → ℕ → Cmd → Manager Cmd
  deliver m h cmd =
      let g : GateHandle Cmd = m.handles h in
      if g.closed then m else record m {
        handles = update m.handles h (record g { out = try_send gate_cap g.out cmd });
      }

  -- One round of the goroutine of `Gate` that has received a command: it looks the entry up, touches
  -- its timer, looks who is in control, and forwards. `others i` is what happens to the manager before
  -- the i-th of these sections.
  unfoldable pub gate_receive :
      (ℕ → Manager Cmd → Manager Cmd) → Manager Cmd → ℕ → Cmd → ℕ → Manager Cmd
  gate_receive others m h cmd now =
      let g : GateHandle Cmd = m.handles h in
      let m0 = others 0 m in
      let m1 = touch_found (others 1 m0) (find_entry m0 g.viewer_id) now in
      let m2 = others 2 m1 in
      let m3 = others 3 m2 in if holds_control m2 g.viewer_id then deliver m3 h cmd else m3

  -- The end of the goroutine of `Gate` for handle `h`: its viewer disconnected.
  unfoldable pub gate_close : Manager Cmd → ℕ → Manager Cmd
  gate_close m h = record m { handles = close_handle m.handles h }
