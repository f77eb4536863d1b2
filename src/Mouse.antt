-- ===== src/Mouse.antt =====
-- kernel/drivers/ps2mouse.c: the packets of the mouse, and the position. A byte read from the port is an argument,
-- and the events given to the callback are a list.
mod Position
mod Tests
use gecko_os.Prelude.{
  ℕ, suc, ◌+◌, ◌-◌, ◌/◌, ◌%◌, Bool, true, false, List, [], ◌∷◌, ◌++◌, ltb, ◌==◌, if◌then◌else◌,
}

abbrev pub vga_text_width : ℕ
vga_text_width = 80

abbrev pub vga_text_height : ℕ
vga_text_height = 25

-- `MOUSE_STATUS`
pub record MouseStatus : Type 0 where
  pub left_button : Bool
  pub right_button : Bool
  pub middle_button : Bool
  pub always_1 : Bool
  pub x_sign : Bool
  pub y_sign : Bool
  pub x_overflow : Bool
  pub y_overflow : Bool

-- `mouse_event_data_t`
pub record MouseEvent : Type 0 where
  pub buttons : ℕ
  pub event_type : ℕ
  pub x : ℕ
  pub y : ℕ
  pub scroll : ℕ

-- `byte0` to `byte3` are `mouse_byte`; the position is never negative behind the handler.
pub record Mouse : Type 0 where
  pub mouse_cycle : ℕ
  pub byte0 : ℕ
  pub byte1 : ℕ
  pub byte2 : ℕ
  pub byte3 : ℕ
  pub status : MouseStatus
  pub x_pos : ℕ
  pub y_pos : ℕ
  pub events : List MouseEvent

unfoldable pub get_mouse_status : (status_byte : ℕ) → MouseStatus
get_mouse_status b = record {
  left_button = b % 2 == 1;
  right_button = b / 2 % 2 == 1;
  middle_button = b / 4 % 2 == 1;
  always_1 = b / 8 % 2 == 1;
  x_sign = b / 16 % 2 == 1;
  y_sign = b / 32 % 2 == 1;
  x_overflow = b / 64 % 2 == 1;
  y_overflow = b / 128 % 2 == 1;
}

-- A sum and a difference with a signed byte, of which a negative one becomes 0.
unfoldable pub moved_forward : (pos byte : ℕ) → ℕ
moved_forward pos byte = if ltb byte 128 then pos + byte else pos - (256 - byte)

unfoldable pub moved_back : (pos byte : ℕ) → ℕ
moved_back pos byte = if ltb byte 128 then pos - byte else pos + (256 - byte)

abbrev pub clamped : (size pos : ℕ) → ℕ
clamped size pos = if ltb size pos then size - 1 else pos

-- The handler behind the fourth byte.
unfoldable pub packet : Mouse → Mouse
packet m =
    let x = clamped vga_text_width (moved_forward m.x_pos m.byte1) in
    let y = clamped vga_text_height (moved_back m.y_pos m.byte2) in
    let event : MouseEvent = record {
      buttons = m.byte0;
      event_type = 0;
      x = x;
      y = y;
      scroll = m.byte3;
    } in
    record m { x_pos = x; y_pos = y; mouse_cycle = 0; events = m.events ++ (event ∷ []) }

unfoldable pub mouse_handler : (byte : ℕ) → Mouse → Mouse
mouse_handler byte m =
    if m.mouse_cycle == 0
    then record m { byte0 = byte; status = get_mouse_status byte; mouse_cycle = suc m.mouse_cycle }
    else if m.mouse_cycle == 1
    then record m { byte1 = byte; mouse_cycle = suc m.mouse_cycle }
    else if m.mouse_cycle == 2
    then record m { byte2 = byte; mouse_cycle = suc m.mouse_cycle }
    else if m.mouse_cycle == 3
    then packet (record m { byte3 = byte; mouse_cycle = suc m.mouse_cycle })
    else packet m
