-- ===== src/Coalescer/Poll.antt =====
-- What a poll leaves.
use playgate.Common.{ℕ, ◌≡◌, refl, inl, inr, Option, none, some, if◌then◌else◌, Bool-cases}
use playgate.Common.Int.{negsuc}
use playgate.Coalescer.{Coalescer, is_limited, poll_with, poll, until_ready}

module _ {Cmd : Type 0} where
  pub poll_nothing :
      (c : Coalescer Cmd) (now : ℕ)
      → c.pending ≡ none
      → (poll c now ≡ (c, none)) × (until_ready c now ≡ negsuc 0)
  unfolding poll poll_with until_ready
  poll_nothing c now e = (rw e refl, rw e refl)

  poll_with_nothing :
      (o : Option Cmd) (c : Coalescer Cmd) (now : ℕ)
      → o ≡ c.pending
      → (poll_with o c now).1 ≡ none
      → (poll_with o c now).0 ≡ c
  unfolding poll_with
  poll_with_nothing none c now p e = refl
  poll_with_nothing (some x) c now p e = elim (Bool-cases (is_limited c now)) [
    | inl t ↦ rw t refl
    | inr f ↦ absurd (
        let no : (if is_limited c now then none else some x) ≡ none = e in
        let yes : (if is_limited c now then none else some x) ≡ some x = rw f refl in cc)
  ]

  -- A poll that sends nothing changes nothing.
  pub poll-none : (c : Coalescer Cmd) (now : ℕ) → (poll c now).1 ≡ none → (poll c now).0 ≡ c
  unfolding poll
  poll-none c now e = poll_with_nothing c.pending c now refl e

  poll_with_sent :
      (o : Option Cmd) (c : Coalescer Cmd) (now : ℕ) (x : Cmd)
      → (poll_with o c now).1 ≡ some x
      → (poll_with o c now).0.pending ≡ none
  unfolding poll_with
  poll_with_sent none c now x e = absurd cc
  poll_with_sent (some y) c now x e = elim (Bool-cases (is_limited c now)) [
    | inl t ↦ absurd (
        let yes : (if is_limited c now then none else some y) ≡ some x = e in
        let no : (if is_limited c now then none else some y) ≡ none = rw t refl in cc)
    | inr f ↦ rw f refl
  ]

  -- A poll that sends leaves nothing pending.
  pub poll_sent :
      (c : Coalescer Cmd) (now : ℕ) (x : Cmd)
      → (poll c now).1 ≡ some x
      → (poll c now).0.pending ≡ none
  unfolding poll
  poll_sent c now x e = poll_with_sent c.pending c now x e
