-- ===== src/Host/SinkExamples.antt =====
-- A console whose "home" button is disabled under a name in capitals.
use playgate.Common.{
  ℕ, ◌≡◌, ◌+◌, refl, true, String, str_eq, List, [], ◌∷◌, ◌++◌, map, All, if◌then◌else◌, arith,
}
use playgate.Common.Bits.{bits_and, bits_or, bits_and_not}
use playgate.Core.{InputCommand}
use playgate.Host.Sink.{
  find_button, parse_button_name, add_mask, add_masks, disabled_mask, DrainEvent, closed, received,
  masked, neutral, drain_to_target,
}
use playgate.Host.Masking.{Clear, before_end, drain_to_target-masked}
use mathlib.Core.List.Memᴰ

run_open : ℕ
unfolding bits_and bits_or bits_and_not find_button parse_button_name add_mask add_masks
    disabled_mask masked drain_to_target
run_open = 0

abbrev lower : String → String
lower s = if str_eq s "HOME" then "home" else s

abbrev disabled : List String
disabled = "pause" ∷ "HOME" ∷ "turbo" ∷ []

abbrev pressed : ℕ → InputCommand ℕ
pressed b = record { seq = 1; buttons = b; lx = 5; ly = 5; rx = 5; ry = 5; timestamp = 7 }

abbrev events : List (DrainEvent ℕ)
events = received (pressed 1027) ∷ received (pressed 256) ∷ closed ∷ received (pressed 1) ∷ []

sent :
    map (λ c. c.buttons) (drain_to_target 5 (disabled_mask lower disabled) events).0
    ≡ 3 ∷ 0 ∷ 0 ∷ []
unfolding run_open
sent = refl

drain_to_target-masked_example :
    (drain_to_target 5 (disabled_mask lower disabled) events
      ≡ (map (masked 1280) (before_end events) ++ neutral 5 ∷ [], true))
    × All
        (λ c. (masked 1280 c).buttons + bits_and 32 c.buttons 1280 ≡ c.buttons)
        (before_end events)
    × All (λ c. Clear 1024 c.buttons) (drain_to_target 5 (disabled_mask lower disabled) events).0
unfolding run_open
drain_to_target-masked_example =
    drain_to_target-masked 5 lower disabled "HOME" 1024 events (Memᴰ.tail (Memᴰ.head refl)) refl
      (omega arith, (omega arith, tt))
