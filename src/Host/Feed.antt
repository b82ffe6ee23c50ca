-- ===== src/Host/Feed.antt =====
-- playgate-host/internal/host/connect.go: the feed of the viewers' messages, and the sessions that it
-- starts. A session is its number in a store; `started` and `applied` are what the goroutines of
-- `runViewer` and the peers' `SetRemoteDescription` were called with.
use playgate.Common.{
  ℕ, suc, Bool, true, false, not, ◌||◌, Option, none, some, String, str_eq, List, [], ◌∷◌, ◌++◌,
  ◌==◌, if◌then◌else◌,
}

-- `viewerEnvelope`.
pub record ViewerEnvelope : Type 0 where
  pub kind : String
  pub message_type : String
  pub sdp : String
  pub viewer_id : String

-- `viewerSession`: whether its peer is set, and whether an answer was applied.
pub record ViewerSession : Type 0 where
  pub has_peer : Bool
  pub answered : Bool

-- `connManager`.
pub record ConnManager : Type 0 where
  pub sessions : List (String × ℕ)
  pub store : ℕ → ViewerSession
  pub next_session : ℕ
  pub started : List (String × ℕ)
  pub applied : List (ℕ × String)

abbrev pub new_session : ViewerSession
new_session = record { has_peer = false; answered = false }

-- The start of `loop`.
abbrev pub new_conn_manager : ConnManager
new_conn_manager = record {
  sessions = [];
  store = λ _. new_session;
  next_session = 0;
  started = [];
  applied = [];
}

unfoldable pub set_session : (ℕ → ViewerSession) → ℕ → ViewerSession → ℕ → ViewerSession
set_session store i s k = if k == i then s else store k

unfoldable pub lookup : List (String × ℕ) → String → Option ℕ
lookup [] v = none
lookup ((w, i) ∷ rest) v = let found = lookup rest v in if str_eq w v then some i else found

unfoldable pub delete_key : List (String × ℕ) → String → List (String × ℕ)
delete_key [] v = []
delete_key ((w, i) ∷ rest) v =
    let left = delete_key rest v in if str_eq w v then left else (w, i) ∷ left

-- `setPeer`.
unfoldable pub set_peer : ConnManager → ℕ → ConnManager
unfolding set_session
set_peer c i = record c { store = set_session c.store i (record (c.store i) { has_peer = true }) }

-- `applyAnswer`.
unfoldable pub apply_answer : ConnManager → ℕ → ViewerEnvelope → ConnManager
unfolding set_session
apply_answer c i env =
    let s : ViewerSession = c.store i in
    let ignored =
      not (str_eq env.message_type "answer") || str_eq env.sdp "" || not s.has_peer || s.answered in
    record c {
      store = if ignored then c.store else set_session c.store i (record s { answered = true });
      applied = if ignored then c.applied else c.applied ++ (i, env.sdp) ∷ [];
    }

-- A message of a viewer that has no session.
unfoldable pub start_viewer : ConnManager → ViewerEnvelope → ConnManager
unfolding set_session
start_viewer c env = if not (str_eq env.kind "hello") then c else record c {
  sessions = (env.viewer_id, c.next_session) ∷ c.sessions;
  store = set_session c.store c.next_session new_session;
  next_session = suc c.next_session;
  started = c.started ++ (env.viewer_id, c.next_session) ∷ [];
}

unfoldable pub dispatch_message : ConnManager → Option ℕ → ViewerEnvelope → ConnManager
unfolding start_viewer apply_answer
dispatch_message c none env = start_viewer c env
dispatch_message c (some i) env = apply_answer c i env

-- `handleFeedMessage`, of a payload as JSON reads it.
unfoldable pub handle_feed_message : ConnManager → Option ViewerEnvelope → ConnManager
unfolding dispatch_message lookup
handle_feed_message c none = c
handle_feed_message c (some env) =
    if str_eq env.viewer_id "" then c else dispatch_message c (lookup c.sessions env.viewer_id) env

-- The end of `runViewer`.
unfoldable pub end_viewer : ConnManager → String → ConnManager
unfolding delete_key
end_viewer c v = record c { sessions = delete_key c.sessions v }
