-- ===== src/Mouse/Position.antt =====
-- Where the mouse can be, and which packets become events.
use gecko_os.Prelude.{
  ℕ, suc, ◌+◌, ◌*◌, ◌≤◌, ◌<◌, ◌≡◌, Bool-cases, true, refl, ap, subst, inl, inr, List, [], ◌∷◌, ◌++◌,
  arith, length, length-append, ◌==◌,
}
use gecko_os.Mouse.{
  Mouse, MouseEvent, moved_forward, moved_back, clamped, packet, mouse_handler, vga_text_width,
  vga_text_height,
}

-- The position is on the screen or one behind it, and every fourth byte is an event.
pub record IsMouse (bytes : ℕ) (m : Mouse) : Type 0 where
  pub x_bound : m.x_pos ≤ vga_text_width
  pub y_bound : m.y_pos ≤ vga_text_height
  pub cycle : m.mouse_cycle < 4
  pub packets : 4 * length m.events + m.mouse_cycle ≡ bytes

clamped-le : (size pos : ℕ) → clamped size pos ≤ size
clamped-le size pos = ground arith

grows :
    {bytes : ℕ} (events : List MouseEvent) (event : MouseEvent)
    → 4 * length events + 3 ≡ bytes
    → 4 * length (events ++ (event ∷ [])) + 0 ≡ suc bytes
grows events event count = omega (arith, count, length-append events (event ∷ []))

packet-IsMouse :
    (bytes : ℕ) (m : Mouse) → 4 * length m.events + 3 ≡ bytes → IsMouse (suc bytes) (packet m)
unfolding packet
packet-IsMouse bytes m count = record {
  x_bound = clamped-le vga_text_width (moved_forward m.x_pos m.byte1);
  y_bound = clamped-le vga_text_height (moved_back m.y_pos m.byte2);
  cycle = omega arith;
  packets = grows m.events _ count;
}

-- One of the first three bytes of a packet.
taken :
    (bytes : ℕ) (m m' : Mouse)
    → IsMouse bytes m
    → m.mouse_cycle < 3
    → m'.x_pos ≡ m.x_pos
    → m'.y_pos ≡ m.y_pos
    → m'.events ≡ m.events
    → m'.mouse_cycle ≡ suc m.mouse_cycle
    → IsMouse (suc bytes) m'
taken bytes m m' ok early x y events cycle = record {
  x_bound = omega (arith, x, ok.x_bound);
  y_bound = omega (arith, y, ok.y_bound);
  cycle = omega (arith, cycle);
  packets = omega (arith, cycle, ap length events, ok.packets);
}

mouse_handler-IsMouse :
    (bytes byte : ℕ) (m : Mouse) → IsMouse bytes m → IsMouse (suc bytes) (mouse_handler byte m)
unfolding mouse_handler
mouse_handler-IsMouse bytes byte m ok = elim (Bool-cases (m.mouse_cycle == 0)) [
  | inl first ↦ rw first (taken bytes m _ ok (ground arith) refl refl refl refl)
  | inr not_first ↦ elim (Bool-cases (m.mouse_cycle == 1)) [
    | inl second ↦ rw (not_first, second) (taken bytes m _ ok (ground arith) refl refl refl refl)
    | inr not_second ↦ elim (Bool-cases (m.mouse_cycle == 2)) [
      | inl third ↦
          rw (not_first, not_second, third) (taken bytes m _ ok (ground arith) refl refl refl refl)
      | inr not_third ↦
          let last : m.mouse_cycle ≡ 3 = ground (arith, ok.cycle) in
          let test : (m.mouse_cycle == 3) ≡ true = ground arith in
          rw (not_first, not_second, not_third, test)
            (packet-IsMouse bytes (record m { byte3 = byte; mouse_cycle = suc m.mouse_cycle })
              (omega (arith, ok.packets, last)))
    ]
  ]
]

abbrev pub handle_all : List ℕ → Mouse → Mouse
handle_all [] m = m
handle_all (b ∷ bytes) m = handle_all bytes (mouse_handler b m)

-- From a mouse at most at column 80 and row 25 that has an event for every four of `n` bytes, any bytes that come
-- leave it so, with their number added to `n`.
pub handle_all-IsMouse :
    (bytes : List ℕ) (n : ℕ) (m : Mouse)
    → IsMouse n m
    → IsMouse (n + length bytes) (handle_all bytes m)
handle_all-IsMouse [] n m ok =
    let same : n ≡ n + 0 = omega arith in subst (λ k. IsMouse k m) same ok
handle_all-IsMouse (b ∷ bytes) n m ok =
    let same : suc n + length bytes ≡ n + suc (length bytes) = omega arith in
    subst (λ k. IsMouse k (handle_all bytes (mouse_handler b m))) same
      (handle_all-IsMouse bytes (suc n) (mouse_handler b m) (mouse_handler-IsMouse n b m ok))
