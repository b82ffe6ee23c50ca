-- ===== src/Session.antt =====
-- playgate-host/internal/session/session.go and event.go: the state of the manager of control
-- authority. Entries and gate handles are pointers in the code: here each has a number and stands
-- in a store. A critical section is one function (a tick's check and its event are one too), with
-- the clock's reading `now` in nanoseconds. A buffered channel is the list of what it holds;
-- `InputCommand` is a parameter.
pub mod Control
pub mod Gates
pub mod Holders
pub mod Invariant
pub mod Steps
pub mod Fifo
pub mod Promotion
pub mod Gating
pub mod Shutdown
mod Examples
use playgate.Common.{
  ℕ, suc, ◌+◌, ◌/◌, String, Bool, true, false, not, ◌&&◌, Option, none, some, List, [], ◌∷◌, ◌++◌,
  map, ltb, leb, ◌==◌, if◌then◌else◌, length, str_eq,
}
use playgate.Common.Int.{ℤ, pos, pos_part, ◌+ℤ◌, ◌-ℤ◌, ltb_ℤ, leb_ℤ}
use playgate.Common.Time.{seconds, second}
use playgate.Common.Result.{Result, ok, err}
use playgate.Jwt.{Claims, JwtError}

pub data Policy : Type 0 where
  policy_queue policy_reject : Policy

pub data EventKind : Type 0 where
  granted expired idle_kicked queued tick : EventKind

pub record SessionEvent : Type 0 where
  pub kind : EventKind
  pub viewer_id : String
  pub remaining_seconds : ℤ
  pub queue_position : ℕ
  pub ts : ℕ

-- The tunable parameters that the manager reads.
pub record Config : Type 0 where
  pub room_id : String
  pub idle_timeout : ℤ
  pub tick_interval : ℤ
  pub queue_policy : Policy
  pub max_queue_depth : ℤ

-- The resolved tick interval: one second below a tenth of a second.
pub resolve_tick_interval : Config → ℤ
resolve_tick_interval c =
    if leb_ℤ (pos 100_000_000) c.tick_interval then c.tick_interval else pos second

-- `deadline` is that of the timed context, none for a placeholder; `idle_timer` is when it fires.
-- `cancelled` is whether `cancel` was called. The context is done too once its `deadline` has passed,
-- on which the watcher calls `endSession`.
pub record SessionEntry : Type 0 where
  pub viewer_id : String
  pub claims : Claims
  pub cancelled : Bool
  pub deadline : Option ℤ
  pub idle_timer : Option ℤ
  pub idle_duration : ℤ
  pub gates_done : Bool
  pub gates : List ℕ

pub data ClaimError : Type 0 where
  bad_token : JwtError → ClaimError
  room_mismatch controller_active queue_full : ClaimError

pub record GateHandle (Cmd : Type 0) : Type 0 where
  pub viewer_id : String
  pub out : List Cmd
  pub closed : Bool

pub record Manager (Cmd : Type 0) : Type 0 where
  pub cfg : Config
  pub active : Option ℕ
  pub queue : List ℕ
  pub events_out : List SessionEvent
  pub stopped : Bool
  pub subscribers : List (ℕ × List SessionEvent)
  pub entries : ℕ → SessionEntry
  pub next_entry : ℕ
  pub handles : ℕ → GateHandle Cmd
  pub next_handle : ℕ

-- The store with one cell written.
pub update {ℓ} : {A : Type ℓ} → (ℕ → A) → ℕ → A → ℕ → A
update f i v j = if j == i then v else f j

-- A send that drops the value where the buffer is full.
pub try_send {ℓ} : {A : Type ℓ} → ℕ → List A → A → List A
try_send cap buffer x = if ltb (length buffer) cap then buffer ++ x ∷ [] else buffer

abbrev pub events_cap : ℕ
events_cap = 64

abbrev pub gate_cap : ℕ
gate_cap = 8

pub new_event : EventKind → String → ℤ → ℕ → ℕ → SessionEvent
new_event kind viewer remaining position now = record {
  kind = kind;
  viewer_id = viewer;
  remaining_seconds = remaining;
  queue_position = position;
  ts = now / second;
}

send_all : SessionEvent → List (ℕ × List SessionEvent) → List (ℕ × List SessionEvent)
send_all ev [] = []
send_all ev ((i, buffer) ∷ rest) = (i, try_send events_cap buffer ev) ∷ send_all ev rest

-- The subscribers but one.
pub without : ℕ → List (ℕ × List SessionEvent) → List (ℕ × List SessionEvent)
without ch [] = []
without ch ((i, buffer) ∷ rest) =
    let left = without ch rest in if i == ch then left else (i, buffer) ∷ left

-- Removes the first occurrence of a pointer.
pub remove_first : ℕ → List ℕ → List ℕ
remove_first i [] = []
remove_first i (x ∷ xs) = if x == i then xs else x ∷ remove_first i xs

pub contains : ℕ → List ℕ → Bool
contains i [] = false
contains i (x ∷ xs) = if x == i then true else contains i xs

pub new_waiting : Claims → SessionEntry
new_waiting c = record {
  viewer_id = c.viewer_id;
  claims = c;
  cancelled = false;
  deadline = none;
  idle_timer = none;
  idle_duration = pos 0;
  gates_done = false;
  gates = [];
}

module _ {Cmd : Type 0} where
  -- `NewManager`, once the key is loaded.
  unfoldable pub new_manager : Config → (ℕ → SessionEntry) → (ℕ → GateHandle Cmd) → Manager Cmd
  new_manager cfg entries handles = record {
    cfg = cfg;
    active = none;
    queue = [];
    events_out = [];
    stopped = false;
    subscribers = [];
    entries = entries;
    next_entry = 0;
    handles = handles;
    next_handle = 0;
  }

  -- `emitEvent`.
  pub emit_event : Manager Cmd → SessionEvent → Manager Cmd
  emit_event m ev = record m {
    events_out = if m.stopped then m.events_out else try_send events_cap m.events_out ev;
    subscribers = if m.stopped then m.subscribers else send_all ev m.subscribers;
  }

  -- `gateHandle.close`, on the store of handles.
  pub close_handle : (ℕ → GateHandle Cmd) → ℕ → ℕ → GateHandle Cmd
  close_handle f h = let g : GateHandle Cmd = f h in update f h (record g { closed = true })

  pub close_handles : (ℕ → GateHandle Cmd) → List ℕ → ℕ → GateHandle Cmd
  close_handles f [] = f
  close_handles f (h ∷ hs) = close_handles (close_handle f h) hs

  pub set_entry : Manager Cmd → ℕ → SessionEntry → Manager Cmd
  set_entry m i e = record m { entries = update m.entries i e }

  -- `sessionEntry.closeGates`.
  pub close_gates : Manager Cmd → ℕ → Manager Cmd
  close_gates m i =
      let e : SessionEntry = m.entries i in
      set_entry (record m { handles = close_handles m.handles e.gates }) i
        (record e { gates_done = true; gates = [] })

  -- `entry.cancel()`.
  pub cancel : Manager Cmd → ℕ → Manager Cmd
  cancel m i = let e : SessionEntry = m.entries i in set_entry m i (record e { cancelled = true })

  -- `Subscribe`, for the channel `ch`.
  pub subscribe : Manager Cmd → ℕ → Manager Cmd
  subscribe m ch = record m { subscribers = (ch, []) ∷ m.subscribers }

  -- The release function of `Subscribe`: the channel gets no more events, and is closed.
  pub unsubscribe : Manager Cmd → ℕ → Manager Cmd
  unsubscribe m ch = record m { subscribers = without ch m.subscribers }

  -- `CurrentViewerID`.
  pub current_viewer_id : Manager Cmd → String
  current_viewer_id m = elim m.active [ none ↦ "" | some i ↦ (m.entries i).viewer_id ]
