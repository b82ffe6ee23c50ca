-- ===== src/Coalescer/Rate.antt =====
-- How often commands go out, which ones, and how long to wait.
use playgate.Common.{
  ℕ, ◌+◌, ◌*◌, ◌-◌, ◌≤◌, ◌≡◌, refl, true, false, inl, inr, Option, none, some, List, [], ◌∷◌, ◌++◌,
  if◌then◌else◌, arith, Bool-cases,
}
use playgate.Common.Int.{ℤ, pos, pos_part, ◌≤ℤ◌, ltb_ℤ, sub64, wrap64, ◌-ℤ◌}
use playgate.Common.Time.{second, time_sub, time_sub_reaches, saturate}
use playgate.Coalescer.{Coalescer, push, is_limited, poll_with, poll, until_ready}

-- What the goroutines do to it, in any order.
pub data Action (Cmd : Type 0) : Type 0 where
  pushes : Cmd → Action Cmd
  polls : ℕ → Action Cmd

-- Whether an interval of at most a second is not over.
limited_iff :
    (t u : ℕ) (d : ℤ)
    → d ≤ℤ pos second
    → u ≤ t
    → ltb_ℤ (time_sub t u) d ≡ ltb_ℤ (pos t) (pos (u + pos_part d))
unfolding time_sub saturate
limited_iff t u d h b = ground arith

-- The rest of such an interval.
rest_of :
    (t u : ℕ) (d : ℤ)
    → pos 1 ≤ℤ d
    → d ≤ℤ pos second
    → u ≤ t
    → let r = sub64 d (time_sub t u) in
      (if ltb_ℤ r (pos 0) then pos 0 else r) ≡ pos (u + pos_part d - t)
unfolding time_sub saturate sub64 wrap64 ◌-ℤ◌
rest_of t u d p h b = ground arith

module _ {Cmd : Type 0} where
  abbrev sent : Option Cmd → ℕ
  sent none = 0
  sent (some _) = 1

  -- The state after the actions, and the number of commands that went out.
  pub run : Coalescer Cmd → List (Action Cmd) → Coalescer Cmd × ℕ
  run c [] = (c, 0)
  run c (pushes cmd ∷ acts) = run (push c cmd) acts
  run c (polls now ∷ acts) =
      let r = poll c now in let rest = run r.0 acts in (rest.0, sent r.1 + rest.1)

  -- A poll that sends is an interval after the last one; one that does not changes no time.
  poll_with_apart :
      (o : Option Cmd) (c : Coalescer Cmd) (now : ℕ)
      → pos 1 ≤ℤ c.interval
      → ((poll_with o c now).0.interval ≡ c.interval)
        × (sent (poll_with o c now).1 * pos_part c.interval + c.last_sent
            ≤ (poll_with o c now).0.last_sent)
  unfolding poll_with is_limited
  poll_with_apart none c now h = (refl, omega arith)
  poll_with_apart (some x) c now h =
      elim (Bool-cases (ltb_ℤ (time_sub now c.last_sent) c.interval)) [
        | inl e ↦ (refl, ground (arith, e))
        | inr e ↦
            let late = time_sub_reaches now c.last_sent c.interval h e in
            (refl, ground (arith, e, late))
      ]

  -- However commands are pushed and polled, as many intervals as commands went out fit between the
  -- last command sent before and the last one sent, if the rate is limited.
  pub sends_fit :
      (c : Coalescer Cmd) (acts : List (Action Cmd))
      → pos 1 ≤ℤ c.interval
      → (run c acts).1 * pos_part c.interval + c.last_sent ≤ (run c acts).0.last_sent
  unfolding run push poll
  sends_fit c [] h = omega arith
  sends_fit c (pushes cmd ∷ acts) h = sends_fit (push c cmd) acts h
  sends_fit c (polls now ∷ acts) h =
      let (same, apart) = poll_with_apart c.pending c now h in
      let rest = sends_fit (poll c now).0 acts (rw same h) in omega (arith, apart, rw same at rest)

  -- `untilReady` is exact: with a command pending, an interval of at most a second and the clock
  -- not behind the last command, it is zero when a poll sends that command; otherwise a poll sends
  -- nothing before that time has passed, and sends the command from then on.
  pub until_ready-poll :
      (c : Coalescer Cmd) (cmd : Cmd) (now wait : ℕ)
      → c.pending ≡ some cmd
      → c.interval ≤ℤ pos second
      → pos 0 ≤ℤ c.interval
      → c.last_sent ≤ now
      → (poll c (now + wait)).1 ≡ (if ltb_ℤ (pos wait) (until_ready c now) then none else some cmd)
  unfolding poll poll_with is_limited until_ready
  until_ready-poll c cmd now wait e h p b = rw e (elim (Bool-cases (ltb_ℤ (pos 0) c.interval)) [
    | inl t ↦
        let late = limited_iff (now + wait) c.last_sent c.interval h (omega (arith, b)) in
        let left = rest_of now c.last_sent c.interval (ground (arith, t)) h b in
        ground (arith, t, late, left)
    | inr f ↦ ground (arith, f)
  ])

  abbrev pub push_all : Coalescer Cmd → List Cmd → Coalescer Cmd
  push_all c [] = c
  push_all c (x ∷ xs) = push_all (push c x) xs

  pushed :
      (c : Coalescer Cmd) (xs : List Cmd) (cmd : Cmd)
      → let d = push_all c (xs ++ cmd ∷ []) in
        (d.pending ≡ some cmd)
        × (d.interval ≡ c.interval)
        × (d.last_sent ≡ c.last_sent)
        × (d.notify ≡ true)
  unfolding push
  pushed c [] cmd = (refl, refl, refl, refl)
  pushed c (x ∷ xs) cmd = pushed (push c x) xs cmd

  -- With an interval of at most a second: of the commands pushed since the last one sent, the last
  -- goes out at the first poll that is an interval after it, and nothing stays pending; the send
  -- loop has been signalled.
  pub push_all-poll :
      (c : Coalescer Cmd) (xs : List Cmd) (cmd : Cmd) (now : ℕ)
      → c.interval ≤ℤ pos second
      → pos 0 ≤ℤ c.interval
      → c.last_sent + pos_part c.interval ≤ now
      → let d = push_all c (xs ++ cmd ∷ []) in
        ((poll d now).1 ≡ some cmd)
        × ((poll d now).0.pending ≡ none)
        × ((poll d now).0.last_sent ≡ now)
        × (d.notify ≡ true)
  unfolding poll poll_with is_limited
  push_all-poll c xs cmd now h p b =
      let d = push_all c (xs ++ cmd ∷ []) in
      let (pending, interval, last, signalled) = pushed c xs cmd in
      let late = limited_iff now c.last_sent c.interval h (omega (arith, b)) in
      let free : is_limited d now ≡ false = rw (interval, last) (ground (arith, late, b, p)) in
      rw (pending, free) (refl, refl, refl, signalled)
