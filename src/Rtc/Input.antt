-- ===== src/Rtc/Input.antt =====
-- The order of the commands that a viewer's peer hands on.
use playgate.Common.{
  ℕ, ◌≤◌, ◌<◌, ◌≡◌, ◌⊎◌, inl, inr, refl, Bool, true, false, not, ◌&&◌, List, [], ◌∷◌, leb, ◌==◌,
  if◌then◌else◌, if_cases, arith,
}
use playgate.Common.Int.{ℤ}
use playgate.Common.Float.{Float32}
use playgate.Common.Result.{Result, ok, err}
use playgate.Core.{InputCommand}
use playgate.Rtc.Wire.{WireError}
use playgate.Rtc.{Peer, new_peer, is_stale, enqueue_command, on_decoded, on_input_message, close}
use playgate.Rtc.Order.{
  InOrder, new-InOrder, close-InOrder, receive_from, receive-InOrder, enqueue-InOrder,
}

new_seq :
    (s last : ℕ) (have : Bool)
    → (not (s == 0) && have && leb s last) ≡ false
    → (have ≡ false → last ≡ 0)
    → (s ≡ 0) ⊎ (last < s)
new_seq s last true h u = ground arith
new_seq s last false h u = let z = u refl in ground arith

seq_grows : (s last : ℕ) → (s ≡ 0) ⊎ (last < s) → last ≤ (if s == 0 then last else s)
seq_grows s last h = ground arith

seq_covered : (s last : ℕ) → s ≤ (if s == 0 then last else s)
seq_covered s last = ground arith

newer_seq : (s last d : ℕ) → (s ≡ 0) ⊎ (last < s) → d ≤ last → (s ≡ 0) ⊎ (d < s)
newer_seq s last d (inl z) le = inl z
newer_seq s last d (inr l) le = inr (omega (arith, l, le))

set_unset :
    (s last : ℕ) (have : Bool)
    → (have ≡ false → last ≡ 0)
    → (if s == 0 then have else true) ≡ false
    → (if s == 0 then last else s) ≡ 0
set_unset s last true u e = ground arith
set_unset s last false u e = let z = u refl in ground arith

-- What happens to a peer: a message on the input channel at an instant, a receive of its consumer,
-- and its closing.
pub data InputEvent : Type 0 where
  message : Bool → List ℕ → ℕ → InputEvent
  receives : InputEvent
  closes : InputEvent

module _ (F : Float32) where
  enqueue_command-InOrder :
      (received : List (InputCommand F.Carrier)) (p : Peer F.Carrier) (cmd : InputCommand F.Carrier)
      → InOrder received p
      → is_stale F p cmd ≡ false
      → InOrder received (enqueue_command F p cmd)
  unfolding enqueue_command is_stale
  enqueue_command-InOrder received p cmd h fresh =
      let new = new_seq cmd.seq p.last_input_seq p.have_input_seq fresh h.unset in
      enqueue-InOrder received p cmd (if cmd.seq == 0 then p.last_input_seq else cmd.seq)
        (if cmd.seq == 0 then p.have_input_seq else true) h (seq_grows cmd.seq p.last_input_seq new)
        (seq_covered cmd.seq p.last_input_seq)
        (λ d b. newer_seq cmd.seq p.last_input_seq d.seq new b)
        (set_unset cmd.seq p.last_input_seq p.have_input_seq h.unset)

  on_decoded-InOrder :
      (received : List (InputCommand F.Carrier)) (p : Peer F.Carrier)
      (r : Result WireError (InputCommand F.Carrier))
      → InOrder received p
      → InOrder received (on_decoded F p r)
  unfolding on_decoded
  on_decoded-InOrder received p (err e) h = h
  on_decoded-InOrder received p (ok cmd) h =
      if_cases (InOrder received) p.closed p _ (λ _. h)
        (λ _.
          if_cases (InOrder received) (is_stale F p cmd) p _ (λ _. h)
            (enqueue_command-InOrder received p cmd h))

  unfoldable pub input_step :
      List (InputCommand F.Carrier) × Peer F.Carrier
      → InputEvent
      → List (InputCommand F.Carrier) × Peer F.Carrier
  unfolding receive_from close on_input_message
  input_step (received, p) (message is_string frame now) =
      (received, on_input_message F p is_string frame now)
  input_step (received, p) receives = receive_from p.commands received p
  input_step (received, p) closes = (received, close p)

  unfoldable pub input_run :
      List (InputCommand F.Carrier) × Peer F.Carrier
      → List InputEvent
      → List (InputCommand F.Carrier) × Peer F.Carrier
  unfolding input_step
  input_run s [] = s
  input_run s (e ∷ es) = input_run (input_step s e) es

  input_step-InOrder :
      (s : List (InputCommand F.Carrier) × Peer F.Carrier) (e : InputEvent)
      → InOrder s.0 s.1
      → InOrder (input_step s e).0 (input_step s e).1
  unfolding input_step on_input_message
  input_step-InOrder (received, p) (message is_string frame now) h =
      if_cases (InOrder received) is_string p _ (λ _. h) (λ _. on_decoded-InOrder received p _ h)
  input_step-InOrder (received, p) receives h = receive-InOrder p.commands received p refl h
  input_step-InOrder (received, p) closes h = close-InOrder received p h

  input_run-keeps :
      (s : List (InputCommand F.Carrier) × Peer F.Carrier) (es : List InputEvent)
      → InOrder s.0 s.1
      → InOrder (input_run s es).0 (input_run s es).1
  unfolding input_run
  input_run-keeps s [] h = h
  input_run-keeps s (e ∷ es) h = input_run-keeps (input_step s e) es (input_step-InOrder s e h)

  -- A new peer, given any messages, receives and closings in any order: of the commands that its
  -- consumer received and then of those in its channel, in their order, each has a sequence number
  -- greater than all before it, or 0; and the channel holds no more than its capacity.
  pub input_run-InOrder :
      (n : ℤ) (es : List InputEvent)
      → InOrder (input_run ([], new_peer n) es).0 (input_run ([], new_peer n) es).1
  input_run-InOrder n es = input_run-keeps ([], new_peer n) es (new-InOrder n)
