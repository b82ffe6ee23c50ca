-- ===== src/Host/Sink.antt =====
-- playgate-host/internal/host/sink.go, with the buttons of playgate-host/internal/core/types.go: the
-- commands that reach the console, and the buttons that never do. `strings.ToLower` is a parameter.
use playgate.Common.{
  ℕ, ◌^◌, Bool, true, false, Option, none, some, String, str_eq, List, [], ◌∷◌, if◌then◌else◌,
}
use playgate.Common.Bits.{bits_or, bits_and_not}
use playgate.Core.{InputCommand}

-- The name tests of `ParseButtonName`, and the bit of the button.
abbrev pub button_rows : List (String × ℕ)
button_rows =
    ("a", 0)
    ∷ ("b", 1)
    ∷ ("x", 2)
    ∷ ("y", 3)
    ∷ ("l", 4)
    ∷ ("r", 5)
    ∷ ("zl", 6)
    ∷ ("zr", 7)
    ∷ ("plus", 8)
    ∷ ("pause", 8)
    ∷ ("minus", 9)
    ∷ ("home", 10)
    ∷ ("capture", 11)
    ∷ ("screenshot", 11)
    ∷ ("lstick", 12)
    ∷ ("l_stick", 12)
    ∷ ("rstick", 13)
    ∷ ("r_stick", 13)
    ∷ ("up", 14)
    ∷ ("dpad_up", 14)
    ∷ ("down", 15)
    ∷ ("dpad_down", 15)
    ∷ ("left", 16)
    ∷ ("dpad_left", 16)
    ∷ ("right", 17)
    ∷ ("dpad_right", 17)
    ∷ []

unfoldable pub find_button : List (String × ℕ) → String → Option ℕ
find_button [] name = none
find_button ((key, bit) ∷ rows) name =
    let found = find_button rows name in if str_eq name key then some (2 ^ bit) else found

-- `ParseButtonName`.
unfoldable pub parse_button_name : (String → String) → String → Option ℕ
unfolding find_button
parse_button_name to_lower name = find_button button_rows (to_lower name)

unfoldable pub add_mask : ℕ → Option ℕ → ℕ
add_mask masks none = masks
add_mask masks (some mask) = bits_or 32 masks mask

-- The loop of `newInputSink`.
unfoldable pub add_masks : (String → String) → ℕ → List String → ℕ
unfolding add_mask parse_button_name
add_masks to_lower masks [] = masks
add_masks to_lower masks (name ∷ names) =
    add_masks to_lower (add_mask masks (parse_button_name to_lower name)) names

unfoldable pub disabled_mask : (String → String) → List String → ℕ
unfolding add_masks
disabled_mask to_lower names = add_masks to_lower 0 names

-- What the `select` of `drainToTarget` gets.
pub data DrainEvent (Axis : Type 0) : Type 0 where
  cancelled : DrainEvent Axis
  closed : DrainEvent Axis
  received : InputCommand Axis → DrainEvent Axis

module _ {Axis : Type 0} where
  -- `cmd.Buttons &= ^s.disabledMask`.
  unfoldable pub masked : ℕ → InputCommand Axis → InputCommand Axis
  masked mask cmd = record cmd { buttons = bits_and_not 32 cmd.buttons mask }

  -- `core.InputCommand{}`, of the axis at rest.
  abbrev pub neutral : Axis → InputCommand Axis
  neutral rest = record {
    seq = 0;
    buttons = 0;
    lx = rest;
    ly = rest;
    rx = rest;
    ry = rest;
    timestamp = 0;
  }

  -- `drainToTarget`: what is sent to the target, and whether the loop has returned.
  unfoldable pub drain_to_target :
      Axis → ℕ → List (DrainEvent Axis) → List (InputCommand Axis) × Bool
  unfolding masked
  drain_to_target rest mask [] = ([], false)
  drain_to_target rest mask (cancelled ∷ events) = (neutral rest ∷ [], true)
  drain_to_target rest mask (closed ∷ events) = (neutral rest ∷ [], true)
  drain_to_target rest mask (received cmd ∷ events) =
      let (sends, returned) = drain_to_target rest mask events in
      (masked mask cmd ∷ sends, returned)
