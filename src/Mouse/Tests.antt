-- ===== src/Mouse/Tests.antt =====
-- The mouse at concrete packets.
use gecko_os.Prelude.{ℕ, ◌+◌, ◌≡◌, refl, List, [], ◌∷◌, arith, length}
use gecko_os.Mouse.{Mouse, get_mouse_status, moved_forward, moved_back, packet, mouse_handler}
use gecko_os.Mouse.Position.{IsMouse, handle_all, handle_all-IsMouse}

abbrev resting : Mouse
resting = record {
  mouse_cycle = 0;
  byte0 = 0;
  byte1 = 0;
  byte2 = 0;
  byte3 = 0;
  status = get_mouse_status 8;
  x_pos = 79;
  y_pos = 0;
  events = [];
}

-- One to the right from the last column leads behind it, and two back to it.
behind_test : (handle_all (8 ∷ 1 ∷ 0 ∷ 0 ∷ []) resting).x_pos ≡ 80
unfolding mouse_handler packet moved_forward moved_back
behind_test = refl

back_test : (handle_all (8 ∷ 2 ∷ 0 ∷ 0 ∷ []) resting).x_pos ≡ 79
unfolding mouse_handler packet moved_forward moved_back
back_test = refl

resting-IsMouse : IsMouse 0 resting
resting-IsMouse = record {
  x_bound = omega arith;
  y_bound = omega arith;
  cycle = omega arith;
  packets = refl;
}

abbrev some_bytes : List ℕ
some_bytes = 8 ∷ 2 ∷ 250 ∷ 0 ∷ 9 ∷ []

handle_all-IsMouse_test : IsMouse (0 + length some_bytes) (handle_all some_bytes resting)
handle_all-IsMouse_test = handle_all-IsMouse some_bytes 0 resting resting-IsMouse
