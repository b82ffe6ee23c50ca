-- ===== src/Common/Channel.antt =====
-- A buffered Go channel as the list of what it holds, oldest first, with its capacity apart.
use Prim.Native.Nat.{ℕ, ◌≤◌}
use mathlib.Core.Path.{◌≡◌, refl}
use mathlib.Core.Bool.{true}
use mathlib.Core.List.{List, [], ◌∷◌, ◌++◌}
use mathlib.Core.Logic.{inl, inr}
use native.Mathlib.Omega.{arith}
use playgate.Common.Tests.{ltb, if◌then◌else◌, Bool-cases, if_cases}
use playgate.Common.Lists.{length, drop, length-append, length-drop}

module _ {ℓ} {A : Type ℓ} where
  -- `select { case ch <- x: default: }`.
  unfoldable pub offer : ℕ → List A → A → List A
  offer room buffer x = if ltb (length buffer) room then buffer ++ x ∷ [] else buffer

  -- An offer; where it finds no room, the oldest value is received and the offer made again.
  unfoldable pub offer_latest : ℕ → List A → A → List A
  unfolding offer
  offer_latest room buffer x =
      if ltb (length buffer) room then buffer ++ x ∷ [] else offer room (drop 1 buffer) x

  pub length-offer :
      (room : ℕ) (buffer : List A) (x : A)
      → length buffer ≤ room
      → length (offer room buffer x) ≤ room
  unfolding offer
  length-offer room buffer x h = ground (arith, length-append buffer (x ∷ []))

  pub length-offer_latest :
      (room : ℕ) (buffer : List A) (x : A)
      → length buffer ≤ room
      → length (offer_latest room buffer x) ≤ room
  unfolding offer_latest offer
  length-offer_latest room buffer x h = ground (
    arith,
    length-append buffer (x ∷ []),
    length-append (drop 1 buffer) (x ∷ []),
    length-drop 1 buffer,
  )

  -- With a roomacity and no more held than that, the value itself is never the one that is dropped.
  pub offer_latest-last :
      (room : ℕ) (buffer : List A) (x : A)
      → 1 ≤ room
      → length buffer ≤ room
      → (rest : List A) × (offer_latest room buffer x ≡ rest ++ x ∷ [])
  unfolding offer_latest offer
  offer_latest-last room buffer x pos h = elim (Bool-cases (ltb (length buffer) room)) [
    | inl t ↦ (buffer, rw t refl)
    | inr f ↦ (
      drop 1 buffer,
      let e : ltb (length (drop 1 buffer)) room ≡ true = ground (arith, length-drop 1 buffer) in
          rw f (rw e refl),
    )
  ]

  -- The buffer after an offer that may have dropped its oldest value.
  pub offer_latest_cases {κ} :
      (P : List A → Type κ) (room : ℕ) (buffer : List A) (x : A)
      → P (buffer ++ x ∷ [])
      → P (drop 1 buffer ++ x ∷ [])
      → P (drop 1 buffer)
      → P (offer_latest room buffer x)
  unfolding offer_latest offer
  offer_latest_cases P room buffer x a b c =
      if_cases P (ltb (length buffer) room) _ _ (λ _. a)
        (λ _. if_cases P (ltb (length (drop 1 buffer)) room) _ _ (λ _. b) (λ _. c))
