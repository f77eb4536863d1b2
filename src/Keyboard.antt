-- ===== src/Keyboard.antt =====
-- kernel/drivers/ps2keyboard.c: the key state, the layout and what a scancode becomes. The ports are
-- parameters: a byte read from one is an argument. Waiting for a byte is `none`.
pub mod Trace
mod Tests
use gecko_os.Prelude.{
  ℕ, ◌+◌, ◌%◌, ◌/◌, Bool, true, false, not, ◌&&◌, ◌||◌, Option, none, some, ltb, ◌==◌,
  if◌then◌else◌,
}

abbrev pub left_shift_sc : ℕ
left_shift_sc = 0x2A

abbrev pub right_shift_sc : ℕ
right_shift_sc = 0x36

abbrev pub caps_lock_sc : ℕ
caps_lock_sc = 0x3A

abbrev pub key_up : ℕ
key_up = 0x60

abbrev pub key_down : ℕ
key_down = 0x61

abbrev pub key_left : ℕ
key_left = 0x62

abbrev pub key_right : ℕ
key_right = 0x63

-- `KeyState`
pub record KeyState : Type 0 where
  pub shift_l : Bool
  pub shift_r : Bool
  pub alt_l : Bool
  pub alt_r : Bool
  pub ctrl_l : Bool
  pub ctrl_r : Bool
  pub caps_lock : Bool

-- `KeyboardLayout`, an entry for each index below 128.
pub record KeyboardLayout : Type 0 where
  pub lower : ℕ → ℕ
  pub upper : ℕ → ℕ

pub record Keyboard : Type 0 where
  pub key_state : KeyState
  pub sc_ascii : ℕ → ℕ
  pub sc_ascii_upper : ℕ → ℕ
  pub kb_ready : Bool
  pub last_scancode : ℕ

abbrev pub xor : Bool → Bool → Bool
xor true b = not b
xor false b = b

-- `none` is a read beyond the 128 entries.
unfoldable pub scancode_to_ascii : (scancode : ℕ) → Keyboard → Option ℕ
scancode_to_ascii scancode k =
    let shift = k.key_state.shift_l || k.key_state.shift_r in
    if ltb scancode 128
    then some
        (if xor k.key_state.caps_lock shift then k.sc_ascii_upper scancode else k.sc_ascii scancode)
    else none

unfoldable pub process_keypress : (sc : ℕ) → KeyState → KeyState
process_keypress sc k =
    let released = sc / 128 % 2 == 1 in
    let key = sc % 128 in
    if key == left_shift_sc
    then record k { shift_l = not released }
    else if key == right_shift_sc
    then record k { shift_r = not released }
    else if key == caps_lock_sc
    then if not released then record k { caps_lock = not k.caps_lock } else k
    else k

-- The second byte of an extended scancode.
unfoldable pub extended : (ext : ℕ) → ℕ
extended ext =
    if ext / 128 % 2 == 1
    then 0
    else if ext == 0x48
    then key_up
    else if ext == 0x50
    then key_down
    else if ext == 0x4B
    then key_left
    else if ext == 0x4D
    then key_right
    else 0

-- Woken with `kb_ready`; `ext` is the byte read from the data port behind 0xE0.
unfoldable pub ps2_kb_wfi : (ext : ℕ) → Keyboard → Option (ℕ × Keyboard)
ps2_kb_wfi ext k =
    let scancode = k.last_scancode in
    let taken = record k { kb_ready = false } in
    if not k.kb_ready
    then none
    else if scancode == 0xE0
    then some (extended ext, taken)
    else some (scancode, record taken { key_state = process_keypress scancode k.key_state })

unfoldable pub ps2_kb_init : Keyboard → Keyboard
ps2_kb_init k = record k {
  key_state = record {
    shift_l = false;
    shift_r = false;
    alt_l = false;
    alt_r = false;
    ctrl_l = false;
    ctrl_r = false;
    caps_lock = false;
  };
}

unfoldable pub set_layout : KeyboardLayout → Keyboard → Keyboard
set_layout layout k = record k { sc_ascii = layout.lower; sc_ascii_upper = layout.upper }

-- `scancode` is the byte read from the data port.
unfoldable pub keyboard_handler : (scancode : ℕ) → Keyboard → Keyboard
keyboard_handler scancode k = record k { last_scancode = scancode; kb_ready = true }
