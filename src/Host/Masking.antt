-- ===== src/Host/Masking.antt =====
-- The commands that the target gets, against those received.
use playgate.Common.{
  ℕ, ◌+◌, ◌<◌, ◌^◌, ◌≡◌, ◌∙◌, refl, sym, ap, subst, Bool, true, false, Option, none, some, String,
  List, [], ◌∷◌, ◌++◌, map, All, All-map, if◌then◌else◌,
}
use playgate.Common.Bits.{
  bits_and, bits_and-bits_and_not, bits_and_not-rest, bits_or-left, bits_or-right, bits_and_zero,
}
use playgate.Core.{InputCommand}
use playgate.Host.Sink.{
  parse_button_name, add_mask, add_masks, disabled_mask, DrainEvent, cancelled, closed, received,
  masked, neutral, drain_to_target,
}
use mathlib.Core.List.{Memᴰ}
use mathlib.Core.List.Memᴰ

-- Buttons of which none is in a mask.
abbrev pub Clear : ℕ → ℕ → Type 0
Clear mask buttons = bits_and 32 buttons mask ≡ 0

add_mask-Clear : (masks : ℕ) (m : Option ℕ) (b : ℕ) → Clear (add_mask masks m) b → Clear masks b
unfolding add_mask
add_mask-Clear masks none b h = h
add_mask-Clear masks (some m) b h = bits_or-left 32 b masks m h

add_masks-Clear :
    (to_lower : String → String) (masks : ℕ) (names : List String) (b : ℕ)
    → Clear (add_masks to_lower masks names) b
    → Clear masks b
unfolding add_masks
add_masks-Clear to_lower masks [] b h = h
add_masks-Clear to_lower masks (name ∷ names) b h =
    let m = parse_button_name to_lower name in
    add_mask-Clear masks m b (add_masks-Clear to_lower (add_mask masks m) names b h)

named_Clear :
    (to_lower : String → String) (masks : ℕ) (names : List String) (name : String) (m b : ℕ)
    → Memᴰ name names
    → parse_button_name to_lower name ≡ some m
    → Clear (add_masks to_lower masks names) b
    → Clear m b
unfolding add_masks add_mask
named_Clear to_lower masks [] name m b i e h = absurd (Memᴰ.not-nil i)
named_Clear to_lower masks (n ∷ names) name m b (Memᴰ.head same) e h =
    let known : parse_button_name to_lower n ≡ some m =
      ap (parse_button_name to_lower) (sym same) ∙ e in
    bits_or-right 32 b masks m (
      subst (λ o. Clear (add_mask masks o) b) known
        (add_masks-Clear to_lower (add_mask masks (parse_button_name to_lower n)) names b h))
named_Clear to_lower masks (n ∷ names) name m b (Memᴰ.tail i) e h =
    named_Clear to_lower (add_mask masks (parse_button_name to_lower n)) names name m b i e h

-- The commands before the end, and whether the end came.
abbrev pub before_end : {Axis : Type 0} → List (DrainEvent Axis) → List (InputCommand Axis)
before_end [] = []
before_end (cancelled ∷ events) = []
before_end (closed ∷ events) = []
before_end (received cmd ∷ events) = cmd ∷ before_end events

abbrev pub ends : {Axis : Type 0} → List (DrainEvent Axis) → Bool
ends [] = false
ends (cancelled ∷ events) = true
ends (closed ∷ events) = true
ends (received cmd ∷ events) = ends events

module _ {Axis : Type 0} (rest : Axis) where
  drain-sends :
      (mask : ℕ) (events : List (DrainEvent Axis))
      → drain_to_target rest mask events ≡ (
        map (masked mask) (before_end events) ++ (if ends events then neutral rest ∷ [] else []),
        ends events,
      )
  unfolding drain_to_target
  drain-sends mask [] = refl
  drain-sends mask (cancelled ∷ events) = refl
  drain-sends mask (closed ∷ events) = refl
  drain-sends mask (received cmd ∷ events) =
      ap (λ r. (masked mask cmd ∷ r.0, r.1)) (drain-sends mask events)

  masked-Clear : (mask : ℕ) (cmd : InputCommand Axis) → Clear mask (masked mask cmd).buttons
  unfolding masked
  masked-Clear mask cmd = bits_and-bits_and_not 32 cmd.buttons mask

  drain-Clear :
      (mask : ℕ) (events : List (DrainEvent Axis))
      → All (λ c. Clear mask c.buttons) (drain_to_target rest mask events).0
  unfolding drain_to_target
  drain-Clear mask [] = tt
  drain-Clear mask (cancelled ∷ events) = (bits_and_zero 32 mask, tt)
  drain-Clear mask (closed ∷ events) = (bits_and_zero 32 mask, tt)
  drain-Clear mask (received cmd ∷ events) = (masked-Clear mask cmd, drain-Clear mask events)

  masked-rest :
      (mask : ℕ) (cmds : List (InputCommand Axis))
      → All (λ c. c.buttons < 2 ^ 32) cmds
      → All (λ c. (masked mask c).buttons + bits_and 32 c.buttons mask ≡ c.buttons) cmds
  unfolding masked
  masked-rest mask cmds fit = All-map _ _ (λ c h. bits_and_not-rest 32 c.buttons mask h) cmds fit

  -- Whatever is received, and whenever the channel closes or the viewer goes: the target gets the
  -- commands before that without the disabled buttons, their other buttons kept where the buttons
  -- fit 32 bits, and the neutral command at the end; and no command sent has a button whose name is
  -- disabled, in any spelling.
  pub drain_to_target-masked :
      (to_lower : String → String) (names : List String) (name : String) (mask : ℕ)
      (events : List (DrainEvent Axis))
      → Memᴰ name names
      → parse_button_name to_lower name ≡ some mask
      → All (λ c. c.buttons < 2 ^ 32) (before_end events)
      → (drain_to_target rest (disabled_mask to_lower names) events ≡ (
        map (masked (disabled_mask to_lower names)) (before_end events)
            ++ (if ends events then neutral rest ∷ [] else []),
        ends events,
      ))
        × All
            (λ c.
              (masked (disabled_mask to_lower names) c).buttons
                + bits_and 32 c.buttons (disabled_mask to_lower names)
              ≡ c.buttons)
            (before_end events)
        × All
            (λ c. Clear mask c.buttons)
            (drain_to_target rest (disabled_mask to_lower names) events).0
  unfolding disabled_mask
  drain_to_target-masked to_lower names name mask events i e fit =
      let all = disabled_mask to_lower names in
      (
        drain-sends all events,
        masked-rest all (before_end events) fit,
        All-map _ _ (λ c h. named_Clear to_lower 0 names name mask c.buttons i e h)
            (drain_to_target rest all events).0 (drain-Clear all events),
      )
