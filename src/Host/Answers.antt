-- ===== src/Host/Answers.antt =====
-- The answers applied over a run of the feed.
use playgate.Common.{
  ℕ, suc, ◌<◌, ◌≡◌, ◌≢◌, ◌∙◌, refl, sym, ap, Bool, true, false, not, ◌||◌, Option, none, some,
  String, str_eq, List, [], ◌∷◌, ◌++◌, ◌==◌, if◌then◌else◌, if_cases, ==_iff, All, All-append,
  All-map, arith,
}
use playgate.Host.Feed.{
  ViewerEnvelope, ViewerSession, ConnManager, new_session, new_conn_manager, set_session, lookup,
  delete_key, set_peer, apply_answer, start_viewer, dispatch_message, handle_feed_message,
  end_viewer,
}

-- A message of the feed, a peer that a session gets, and the end of a viewer's session.
pub data FeedEvent : Type 0 where
  message : Option ViewerEnvelope → FeedEvent
  peer_set : ℕ → FeedEvent
  viewer_ends : String → FeedEvent

unfoldable pub feed_step : ConnManager → FeedEvent → ConnManager
unfolding set_peer handle_feed_message end_viewer
feed_step c (message m) = handle_feed_message c m
feed_step c (peer_set i) = set_peer c i
feed_step c (viewer_ends v) = end_viewer c v

unfoldable pub feed_run : ConnManager → List FeedEvent → ConnManager
unfolding feed_step
feed_run c [] = c
feed_run c (e ∷ es) = feed_run (feed_step c e) es

-- No session occurs twice.
abbrev pub Distinct : List (ℕ × String) → Type 0
Distinct [] = Unit
Distinct (a ∷ as') = All (λ b. b.0 ≢ a.0) as' × Distinct as'

Distinct-last :
    (as' : List (ℕ × String)) (b : ℕ × String)
    → Distinct as'
    → All (λ a. b.0 ≢ a.0) as'
    → Distinct (as' ++ b ∷ [])
Distinct-last [] b h n = (tt, tt)
Distinct-last (a ∷ as') b h n =
    (All-append _ as' (b ∷ []) h.0 (n.0, tt), Distinct-last as' b h.1 n.1)

-- The sessions of applied answers are marked, and older than those to come.
pub record Once (c : ConnManager) : Type 0 where
  pub distinct : Distinct c.applied
  pub marked : All (λ a. (c.store a.0).answered ≡ true) c.applied
  pub older : All (λ a. a.0 < c.next_session) c.applied
  pub known : All (λ s. s.1 < c.next_session) c.sessions

new-Once : Once new_conn_manager
new-Once = record { distinct = tt; marked = tt; older = tt; known = tt }

All-both {ℓ κ} :
    {A : Type ℓ} (P Q : A → Type κ) (xs : List A) → All P xs → All Q xs → All (λ x. P x × Q x) xs
All-both P Q [] h k = tt
All-both P Q (x ∷ xs) h k = ((h.0, k.0), All-both P Q xs h.1 k.1)

-- A session that was marked stays so, where a new value of it is marked too.
set_session-answered :
    (store : ℕ → ViewerSession) (i : ℕ) (s : ViewerSession) (k : ℕ)
    → (store k).answered ≡ true
    → (k ≡ i → s.answered ≡ true)
    → (set_session store i s k).answered ≡ true
unfolding set_session
set_session-answered store i s k m e =
    if_cases (λ (x : ViewerSession). x.answered ≡ true) (k == i) s (store k)
      (λ t. e ((==_iff k i).0 t)) (λ _. m)

set_peer-Once : (c : ConnManager) (i : ℕ) → Once c → Once (set_peer c i)
unfolding set_peer
set_peer-Once c i h = record {
  distinct = h.distinct;
  marked =
      All-map _ _
        (λ a m.
          set_session-answered c.store i (record (c.store i) { has_peer = true }) a.0 m
            (λ e. ap (λ k. (c.store k).answered) (sym e) ∙ m))
        c.applied h.marked;
  older = h.older;
  known = h.known;
}

marks_own :
    (store : ℕ → ViewerSession) (i : ℕ) (s : ViewerSession)
    → s.answered ≡ true
    → (set_session store i s i).answered ≡ true
unfolding set_session
marks_own store i s m = let own : (i == i) ≡ true = (==_iff i i).1 refl in rw own m

or_last : (a b c d : Bool) → (a || b || c || d) ≡ false → d ≡ false
or_last a b c d e = ground arith

-- The choice of `apply_answer`.
answered-Once :
    (c : ConnManager) (i : ℕ) (sdp : String) (ignored : Bool)
    → i < c.next_session
    → (ignored ≡ false → (c.store i).answered ≡ false)
    → Once c
    → Once (record c {
      store =
          if ignored
          then c.store
          else set_session c.store i (record (c.store i) { answered = true });
      applied = if ignored then c.applied else c.applied ++ (i, sdp) ∷ [];
    })
answered-Once c i sdp true lt f h = record {
  distinct = h.distinct;
  marked = h.marked;
  older = h.older;
  known = h.known;
}
answered-Once c i sdp false lt f h =
    let marked = record (c.store i) { answered = true } in
    let fresh = f refl in
    record {
      distinct =
          Distinct-last c.applied (i, sdp) h.distinct
            (All-map _ _
              (λ a m e. absurd (
                let same : (c.store i).answered ≡ true = ap (λ k. (c.store k).answered) e ∙ m in
                cc))
              c.applied h.marked);
      marked =
          All-append _ c.applied ((i, sdp) ∷ [])
            (All-map _ _ (λ a m. set_session-answered c.store i marked a.0 m (λ _. refl)) c.applied
              h.marked)
            (marks_own c.store i marked refl, tt);
      older = All-append _ c.applied ((i, sdp) ∷ []) h.older (lt, tt);
      known = h.known;
    }

apply_answer-Once :
    (c : ConnManager) (i : ℕ) (env : ViewerEnvelope)
    → i < c.next_session
    → Once c
    → Once (apply_answer c i env)
unfolding apply_answer
apply_answer-Once c i env lt h =
    let s : ViewerSession = c.store i in
    answered-Once c i env.sdp
      (not (str_eq env.message_type "answer") || str_eq env.sdp "" || not s.has_peer || s.answered)
      lt
      (or_last (not (str_eq env.message_type "answer")) (str_eq env.sdp "") (not s.has_peer)
        s.answered)
      h

started-Once :
    (c : ConnManager) (v : String)
    → Once c
    → Once (record c {
      sessions = (v, c.next_session) ∷ c.sessions;
      store = set_session c.store c.next_session new_session;
      next_session = suc c.next_session;
      started = c.started ++ (v, c.next_session) ∷ [];
    })
started-Once c v h = record {
  distinct = h.distinct;
  marked =
      All-map _ _
        (λ a b.
          set_session-answered c.store c.next_session new_session a.0 b.0
            (λ e. absurd (let l = b.1 in omega (arith, l, e))))
        c.applied (All-both _ _ c.applied h.marked h.older);
  older = All-map _ _ (λ a b. omega (arith, b)) c.applied h.older;
  known = (omega arith, All-map _ _ (λ s b. omega (arith, b)) c.sessions h.known);
}

start_viewer-Once : (c : ConnManager) (env : ViewerEnvelope) → Once c → Once (start_viewer c env)
unfolding start_viewer
start_viewer-Once c env h =
    if_cases Once (not (str_eq env.kind "hello")) c _ (λ _. h) (λ _. started-Once c env.viewer_id h)

delete_key-All :
    (P : String × ℕ → Type 0) (l : List (String × ℕ)) (v : String)
    → All P l
    → All P (delete_key l v)
unfolding delete_key
delete_key-All P [] v h = tt
delete_key-All P ((w, i) ∷ rest) v h =
    let r = delete_key-All P rest v h.1 in
    if_cases (All P) (str_eq w v) (delete_key rest v) _ (λ _. r) (λ _. (h.0, r))

lookup_cons :
    (n : ℕ) (b : Bool) (j i : ℕ) (rest : Option ℕ)
    → j < n
    → (rest ≡ some i → i < n)
    → (if b then some j else rest) ≡ some i
    → i < n
lookup_cons n true j i rest lt f e = let same : j ≡ i = cc in omega (arith, lt, same)
lookup_cons n false j i rest lt f e = f e

lookup-All :
    (n : ℕ) (l : List (String × ℕ)) (v : String) (i : ℕ)
    → All (λ s. s.1 < n) l
    → lookup l v ≡ some i
    → i < n
unfolding lookup
lookup-All n [] v i h e = absurd cc
lookup-All n ((w, j) ∷ rest) v i h e =
    lookup_cons n (str_eq w v) j i (lookup rest v) h.0 (lookup-All n rest v i h.1) e

dispatch_message-Once :
    (c : ConnManager) (found : Option ℕ) (env : ViewerEnvelope)
    → ((i : ℕ) → found ≡ some i → i < c.next_session)
    → Once c
    → Once (dispatch_message c found env)
unfolding dispatch_message
dispatch_message-Once c none env f h = start_viewer-Once c env h
dispatch_message-Once c (some i) env f h = apply_answer-Once c i env (f i refl) h

feed_step-Once : (c : ConnManager) (e : FeedEvent) → Once c → Once (feed_step c e)
unfolding feed_step handle_feed_message end_viewer
feed_step-Once c (message none) h = h
feed_step-Once c (message (some env)) h =
    if_cases Once (str_eq env.viewer_id "") c _ (λ _. h)
      (λ _.
        dispatch_message-Once c (lookup c.sessions env.viewer_id) env
          (λ i. lookup-All c.next_session c.sessions env.viewer_id i h.known) h)
feed_step-Once c (peer_set i) h = set_peer-Once c i h
feed_step-Once c (viewer_ends v) h = record {
  distinct = h.distinct;
  marked = h.marked;
  older = h.older;
  known = delete_key-All _ c.sessions v h.known;
}

feed_run-keeps : (c : ConnManager) (es : List FeedEvent) → Once c → Once (feed_run c es)
unfolding feed_run
feed_run-keeps c [] h = h
feed_run-keeps c (e ∷ es) h = feed_run-keeps (feed_step c e) es (feed_step-Once c e h)

-- Whatever messages the feed brings, replayed ones among them, and whenever sessions get their peers
-- and end: no session has an answer applied twice.
pub feed_run-Once : (es : List FeedEvent) → Once (feed_run new_conn_manager es)
feed_run-Once es = feed_run-keeps new_conn_manager es new-Once
