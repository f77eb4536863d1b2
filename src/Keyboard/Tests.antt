-- ===== src/Keyboard/Tests.antt =====
-- Runs of the keyboard and the theorem at a concrete sequence.
use gecko_os.Prelude.{
  ℕ, ◌+◌, ◌<◌, ◌≡◌, refl, ◌||◌, true, false, none, some, List, [], ◌∷◌, arith, if◌then◌else◌,
}
use gecko_os.Keyboard.{
  KeyState, Keyboard, left_shift_sc, right_shift_sc, caps_lock_sc, xor, scancode_to_ascii, extended,
  ps2_kb_wfi, ps2_kb_init, set_layout, keyboard_handler,
}
use gecko_os.Keyboard.Trace.{type_keys, down_after, lock_after, type_keys_lem}

abbrev up : KeyState
up = record {
  shift_l = false;
  shift_r = false;
  alt_l = false;
  alt_r = false;
  ctrl_l = false;
  ctrl_r = false;
  caps_lock = false;
}

abbrev idle : Keyboard
idle = record {
  key_state = up;
  sc_ascii = λ c. c;
  sc_ascii_upper = λ c. 100 + c;
  kb_ready = false;
  last_scancode = 0;
}

init_test : ps2_kb_init (record idle { key_state = record up { caps_lock = true } }) ≡ idle
unfolding ps2_kb_init
init_test = refl

layout_test :
    scancode_to_ascii 30 (set_layout (record { lower = λ c. 97; upper = λ c. 65 }) idle) ≡ some 97
unfolding scancode_to_ascii set_layout
layout_test = refl

beyond_test : scancode_to_ascii 0x9E idle ≡ none
unfolding scancode_to_ascii
beyond_test = refl

arrow_test :
    ps2_kb_wfi 0x48 (keyboard_handler 0xE0 idle) ≡ some (0x60, record idle { last_scancode = 0xE0 })
unfolding ps2_kb_wfi keyboard_handler extended
arrow_test = refl

waiting_test : ps2_kb_wfi 0 idle ≡ none
unfolding ps2_kb_wfi
waiting_test = refl

-- Shift is pressed, caps lock is pressed and released, shift is released.
abbrev keys : List ℕ
keys = 0x2A ∷ 0x3A ∷ 0xBA ∷ 0xAA ∷ []

keys_test : lock_after caps_lock_sc keys false ≡ true
keys_test = refl

type_keys_lem_example :
    (k' : Keyboard) × (type_keys keys idle ≡ some k')
    × (k'.key_state.shift_l ≡ down_after left_shift_sc keys false)
    × (k'.key_state.shift_r ≡ down_after right_shift_sc keys false)
    × (k'.key_state.caps_lock ≡ lock_after caps_lock_sc keys false)
    × ((c : ℕ)
        → c < 128
        → scancode_to_ascii c k'
          ≡ some (
              if xor
                (lock_after caps_lock_sc keys false)
                (down_after left_shift_sc keys false || down_after right_shift_sc keys false)
              then 100 + c
              else c))
type_keys_lem_example = type_keys_lem keys idle (
  omega arith,
  λ e. absurd (omega arith),
  (
    omega arith,
    λ e. absurd (omega arith),
    (omega arith, λ e. absurd (omega arith), (omega arith, λ e. absurd (omega arith), tt)),
  ),
)
