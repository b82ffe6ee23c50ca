-- ===== src/Nxbt/Flush.antt =====
-- playgate-host/internal/input/nxbt/target.go, `flush`: it drains the limiter and ends. Each call
-- of `poll` and of `untilReady` reads the clock, and nothing is pushed meanwhile. Fuel bounds the
-- polls; `none` is fuel that is out. A write succeeds: its error, which ends the session, is left
-- out.
use playgate.Common.{
  ℕ, zero, suc, ◌+◌, ◌-◌, ◌≤◌, ◌≡◌, ◌∙◌, inl, inr, refl, sym, subst, ap, false, Option, none, some,
  List, [], ◌∷◌, if◌then◌else◌, if_cases, Option-cases, length, arith,
}
use playgate.Common.Int.{ℤ, pos, ltb_ℤ, eqb_ℤ, ◌≤ℤ◌}
use playgate.Common.Time.{second}
use playgate.Coalescer.{Coalescer, poll, until_ready}
use playgate.Coalescer.Poll.{poll_nothing, poll-none, poll_sent}
use playgate.Coalescer.Rate.{until_ready-poll}

-- The limiter, the commands that were written, and the delay of the timer if it was set.
pub record Flushed (Cmd : Type 0) : Type 0 where
  pub coalescer : Coalescer Cmd
  pub written : List Cmd
  pub timer : Option ℤ

next_later :
    (clock : ℕ → ℕ) → ((i : ℕ) → clock i ≤ clock (i + 1)) → (k : ℕ) → clock (k + 1) ≤ clock (k + 2)
next_later clock mono k =
    subst (λ j. clock (k + 1) ≤ clock j) (let e : k + 1 + 1 ≡ k + 2 = omega arith in e)
      (mono (k + 1))

module _ {Cmd : Type 0} where
  unfoldable pub also_written : Cmd → Option (Flushed Cmd) → Option (Flushed Cmd)
  also_written cmd none = none
  also_written cmd (some r) = some (record r { written = cmd ∷ r.written })

  -- An iteration, with the rest of the loop after a poll that sent and after one that did not.
  unfoldable pub flush_next :
      Option Cmd
      → Coalescer Cmd
      → ℤ
      → Option (Flushed Cmd)
      → Option (Flushed Cmd)
      → Option (Flushed Cmd)
  unfolding also_written
  flush_next (some cmd) c d sent again = also_written cmd sent
  flush_next none c d sent again =
      if ltb_ℤ d (pos 0)
      then some (record { coalescer = c; written = []; timer = none })
      else if eqb_ℤ d (pos 0)
      then again
      else some (record { coalescer = c; written = []; timer = some d })

  -- `flush`, whose readings of the clock are numbered from k.
  unfoldable pub flush : ℕ → Coalescer Cmd → (ℕ → ℕ) → ℕ → Option (Flushed Cmd)
  unfolding flush_next
  flush zero c clock k = none
  flush (suc fuel) c clock k =
      let r = poll c (clock k) in
      let sent = flush fuel r.0 clock (k + 1) in
      let again = flush fuel r.0 clock (k + 2) in
      flush_next r.1 r.0 (until_ready r.0 (clock (k + 1))) sent again

  -- A result, with at most one command written.
  abbrev Ended : Option (Flushed Cmd) → Type 0
  Ended none = ⊥
  Ended (some r) = length r.written ≤ 1

  abbrev EndedEmpty : Option (Flushed Cmd) → Type 0
  EndedEmpty none = ⊥
  EndedEmpty (some r) = r.written ≡ []

  -- With nothing pending the first poll ends the loop.
  flush_empty :
      (n : ℕ) (c : Coalescer Cmd) (clock : ℕ → ℕ) (k : ℕ)
      → c.pending ≡ none
      → EndedEmpty (flush (suc n) c clock k)
  unfolding flush flush_next
  flush_empty n c clock k e =
      let p = (poll_nothing c (clock k) e).0 in
      let u = (poll_nothing c (clock (k + 1)) e).1 in rw p (rw u refl)

  no_more : (o : Option (Flushed Cmd)) → EndedEmpty o → Ended o
  no_more none h = absurd h
  no_more (some r) h = let l = ap length h in omega (arith, l)

  also_written-Ended :
      (cmd : Cmd) (o : Option (Flushed Cmd)) → EndedEmpty o → Ended (also_written cmd o)
  unfolding also_written
  also_written-Ended cmd none h = absurd h
  also_written-Ended cmd (some r) h = let l = ap length h in omega (arith, l)

  flush_next-Ended :
      (o : Option Cmd) (c : Coalescer Cmd) (d : ℤ) (sent again : Option (Flushed Cmd))
      → ((x : Cmd) → o ≡ some x → EndedEmpty sent)
      → (o ≡ none → d ≡ pos 0 → Ended again)
      → Ended (flush_next o c d sent again)
  unfolding flush_next
  flush_next-Ended (some x) c d sent again h g = also_written-Ended x sent (h x refl)
  flush_next-Ended none c d sent again h g =
      if_cases Ended (ltb_ℤ d (pos 0)) _ _ (λ _. omega arith)
        (λ _.
          if_cases Ended (eqb_ℤ d (pos 0)) again _ (λ z. g refl (ground arith)) (λ _. omega arith))

  -- A command that was not sent when its wait was over is sent by the next poll.
  flush_due :
      (n : ℕ) (c : Coalescer Cmd) (cmd : Cmd) (clock : ℕ → ℕ) (k : ℕ)
      → (poll c (clock k)).1 ≡ some cmd
      → Ended (flush (suc (suc n)) c clock k)
  unfolding flush
  flush_due n c cmd clock k due =
      flush_next-Ended (poll c (clock k)).1 (poll c (clock k)).0 _ _ _
        (λ x e. flush_empty n (poll c (clock k)).0 clock (k + 1) (poll_sent c (clock k) x e))
        (λ e _. absurd cc)

  -- When the wait is over the next poll sends.
  due_poll :
      (c : Coalescer Cmd) (cmd : Cmd) (now next : ℕ)
      → c.pending ≡ some cmd
      → c.interval ≤ℤ pos second
      → pos 0 ≤ℤ c.interval
      → c.last_sent ≤ now
      → now ≤ next
      → until_ready c now ≡ pos 0
      → (poll c next).1 ≡ some cmd
  due_poll c cmd now next e h p b le ready =
      let wait : now + (next - now) ≡ next = omega (arith, le) in
      let over : ltb_ℤ (pos (next - now)) (until_ready c now) ≡ false = rw ready (ground arith) in
      subst (λ t. (poll c t).1 ≡ some cmd) wait
        (until_ready-poll c cmd now (next - now) e h p b
          ∙ ap (λ b. if b then none else some cmd) over)

  flush_pending :
      (c : Coalescer Cmd) (cmd : Cmd) (clock : ℕ → ℕ) (k : ℕ)
      → c.pending ≡ some cmd
      → c.interval ≤ℤ pos second
      → pos 0 ≤ℤ c.interval
      → ((i : ℕ) → c.last_sent ≤ clock i)
      → ((i : ℕ) → clock i ≤ clock (i + 1))
      → Ended (flush 3 c clock k)
  unfolding flush
  flush_pending c cmd clock k e h p later mono =
      flush_next-Ended (poll c (clock k)).1 (poll c (clock k)).0 _ _ _
        (λ x s. flush_empty 1 (poll c (clock k)).0 clock (k + 1) (poll_sent c (clock k) x s))
        (λ s d.
          let same = poll-none c (clock k) s in
          let ready = subst (λ c'. until_ready c' (clock (k + 1)) ≡ pos 0) same d in
          let due =
            due_poll c cmd (clock (k + 1)) (clock (k + 2)) e h p (later (k + 1))
              (next_later clock mono k) ready in
          subst (λ c'. Ended (flush 2 c' clock (k + 2))) (sym same)
            (flush_due 0 c cmd clock (k + 2) due))

  flush_nothing : (c : Coalescer Cmd) (clock : ℕ → ℕ) → c.pending ≡ none → Ended (flush 3 c clock 0)
  flush_nothing c clock e = no_more _ (flush_empty 2 c clock 0 e)

  result :
      (o : Option (Flushed Cmd))
      → Ended o
      → (r : Flushed Cmd) × (o ≡ some r) × (length r.written ≤ 1)
  result none h = absurd h
  result (some r) h = (r, refl, h)

  -- With an interval from 0 to a second, a clock that never goes back and is not behind the last
  -- command sent, and nothing pushed meanwhile, `flush` ends after at most three polls, and writes
  -- at most one command.
  pub flush-Ended :
      (c : Coalescer Cmd) (clock : ℕ → ℕ)
      → c.interval ≤ℤ pos second
      → pos 0 ≤ℤ c.interval
      → ((i : ℕ) → c.last_sent ≤ clock i)
      → ((i : ℕ) → clock i ≤ clock (i + 1))
      → (r : Flushed Cmd) × (flush 3 c clock 0 ≡ some r) × (length r.written ≤ 1)
  flush-Ended c clock h p later mono = result _ (elim (Option-cases c.pending) [
    | inl e ↦ flush_nothing c clock e
    | inr e ↦ flush_pending c e.0 clock 0 e.1 h p later mono
  ])
