-- ===== src/Rtc/Order.antt =====
-- The order of the commands in a peer's channel, and of those received from it.
use playgate.Common.{
  ℕ, ◌≤◌, ◌<◌, ◌≡◌, ◌∙◌, ◌⊎◌, refl, sym, subst, ap, Bool, false, List, [], ◌∷◌, ◌++◌, append_assoc,
  length, drop, All, All-append, All-map, arith,
}
use playgate.Common.Int.{ℤ}
use playgate.Common.Channel.{offer_latest, offer_latest_cases, length-offer_latest}
use playgate.Core.{InputCommand}
use playgate.Rtc.{Peer, new_peer, close}

-- Every sequence number but 0 is greater than those before it.
abbrev pub Ascending : {Axis : Type 0} → List (InputCommand Axis) → Type 0
Ascending [] = Unit
Ascending (c ∷ cs) = All (λ d. (d.seq ≡ 0) ⊎ (c.seq < d.seq)) cs × Ascending cs

All-remove {ℓ κ} :
    {A : Type ℓ} (P : A → Type κ) (xs : List A) (y : A) (ys : List A)
    → All P (xs ++ y ∷ ys)
    → All P (xs ++ ys)
All-remove P [] y ys h = h.1
All-remove P (x ∷ xs) y ys h = (h.0, All-remove P xs y ys h.1)

module _ {Axis : Type 0} where
  Ascending-remove :
      (xs : List (InputCommand Axis)) (y : InputCommand Axis) (ys : List (InputCommand Axis))
      → Ascending (xs ++ y ∷ ys)
      → Ascending (xs ++ ys)
  Ascending-remove [] y ys h = h.1
  Ascending-remove (x ∷ xs) y ys h = (All-remove _ xs y ys h.0, Ascending-remove xs y ys h.1)

  Ascending-last :
      (xs : List (InputCommand Axis)) (y : InputCommand Axis)
      → Ascending xs
      → All (λ d. (y.seq ≡ 0) ⊎ (d.seq < y.seq)) xs
      → Ascending (xs ++ y ∷ [])
  Ascending-last [] y h b = (tt, tt)
  Ascending-last (x ∷ xs) y h b =
      (All-append _ xs (y ∷ []) h.0 (b.0, tt), Ascending-last xs y h.1 b.1)

  -- The commands that were received from the channel, in their order, and the peer.
  pub record InOrder (received : List (InputCommand Axis)) (p : Peer Axis) : Type 0 where
    pub ascending : Ascending (received ++ p.commands)
    pub below : All (λ d. d.seq ≤ p.last_input_seq) (received ++ p.commands)
    pub unset : p.have_input_seq ≡ false → p.last_input_seq ≡ 0
    pub bounded : length p.commands ≤ p.capacity

  pub new-InOrder : (n : ℤ) → InOrder [] (new_peer n)
  unfolding new_peer
  new-InOrder n = record { ascending = tt; below = tt; unset = λ _. refl; bounded = omega arith }

  pub close-InOrder :
      (received : List (InputCommand Axis)) (p : Peer Axis)
      → InOrder received p
      → InOrder received (close p)
  unfolding close
  close-InOrder received p h = record {
    ascending = h.ascending;
    below = h.below;
    unset = h.unset;
    bounded = h.bounded;
  }

  unfoldable pub receive_from :
      List (InputCommand Axis)
      → List (InputCommand Axis)
      → Peer Axis
      → List (InputCommand Axis) × Peer Axis
  receive_from [] received p = (received, p)
  receive_from (cmd ∷ rest) received p = (received ++ cmd ∷ [], record p { commands = rest })

  pub receive-InOrder :
      (buffer received : List (InputCommand Axis)) (p : Peer Axis)
      → p.commands ≡ buffer
      → InOrder received p
      → InOrder (receive_from buffer received p).0 (receive_from buffer received p).1
  unfolding receive_from
  receive-InOrder [] received p e h = h
  receive-InOrder (cmd ∷ rest) received p e h =
      let whole = ap (λ l. received ++ l) e ∙ sym (append_assoc received (cmd ∷ []) rest) in
      record {
        ascending = subst Ascending whole h.ascending;
        below = subst (All (λ d. d.seq ≤ p.last_input_seq)) whole h.below;
        unset = h.unset;
        bounded = let b = subst (λ l. length l ≤ p.capacity) e h.bounded in omega (arith, b);
      }

  -- A list that goes on with the buffer, without its oldest value.
  drop_oldest :
      (P : List (InputCommand Axis) → Type 0)
      → ((xs : List (InputCommand Axis)) (y : InputCommand Axis) (ys : List (InputCommand Axis))
          → P (xs ++ y ∷ ys)
          → P (xs ++ ys))
      → (xs buffer : List (InputCommand Axis)) → P (xs ++ buffer)
      → P (xs ++ drop 1 buffer)
  drop_oldest P remove xs [] h = h
  drop_oldest P remove xs (y ∷ ys) h = remove xs y ys h

  -- One more command behind the buffer, whether its oldest value was dropped or not.
  Ascending-offer :
      (received buffer : List (InputCommand Axis)) (cmd : InputCommand Axis) (bound : ℕ)
      → ((d : InputCommand Axis) → d.seq ≤ bound → (cmd.seq ≡ 0) ⊎ (d.seq < cmd.seq))
      → All (λ d. d.seq ≤ bound) (received ++ buffer)
      → Ascending (received ++ buffer)
      → Ascending (received ++ (buffer ++ cmd ∷ []))
  Ascending-offer received buffer cmd bound newer below h =
      subst Ascending (append_assoc received buffer (cmd ∷ []))
        (Ascending-last _ cmd h (All-map _ _ newer _ below))

  below_offer :
      (received buffer : List (InputCommand Axis)) (cmd : InputCommand Axis) (bound last : ℕ)
      → bound ≤ last
      → cmd.seq ≤ last
      → All (λ d. d.seq ≤ bound) (received ++ buffer)
      → All (λ d. d.seq ≤ last) (received ++ (buffer ++ cmd ∷ []))
  below_offer received buffer cmd bound last le own h =
      subst (All (λ d. d.seq ≤ last)) (append_assoc received buffer (cmd ∷ [])) (
        All-append _ (received ++ buffer) (cmd ∷ []) (All-map _ _ (λ d b. omega (arith, b, le)) _ h)
          (own, tt))

  pub enqueue-InOrder :
      (received : List (InputCommand Axis)) (p : Peer Axis) (cmd : InputCommand Axis) (last : ℕ)
      (have : Bool)
      → InOrder received p
      → p.last_input_seq ≤ last
      → cmd.seq ≤ last
      → ((d : InputCommand Axis) → d.seq ≤ p.last_input_seq → (cmd.seq ≡ 0) ⊎ (d.seq < cmd.seq))
      → (have ≡ false → last ≡ 0)
      → InOrder received (record p {
        commands = offer_latest p.capacity p.commands cmd;
        last_input_seq = last;
        have_input_seq = have;
      })
  enqueue-InOrder received p cmd last have h le own newer unset =
      let low =
        drop_oldest (All (λ d. d.seq ≤ p.last_input_seq)) (λ xs y ys. All-remove _ xs y ys) received
          p.commands h.below in
      let up = drop_oldest Ascending Ascending-remove received p.commands h.ascending in
      record {
        ascending =
            offer_latest_cases (λ l. Ascending (received ++ l)) p.capacity p.commands cmd
              (Ascending-offer received p.commands cmd p.last_input_seq newer h.below h.ascending)
              (Ascending-offer received (drop 1 p.commands) cmd p.last_input_seq newer low up) up;
        below =
            offer_latest_cases (λ l. All (λ d. d.seq ≤ last) (received ++ l)) p.capacity p.commands
              cmd (below_offer received p.commands cmd p.last_input_seq last le own h.below)
              (below_offer received (drop 1 p.commands) cmd p.last_input_seq last le own low)
              (All-map _ _ (λ d b. omega (arith, b, le)) _ low);
        unset = unset;
        bounded = length-offer_latest p.capacity p.commands cmd h.bounded;
      }
