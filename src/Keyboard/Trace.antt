-- ===== src/Keyboard/Trace.antt =====
-- The key state after a sequence of keys, against a description by the sequence alone.
use gecko_os.Prelude.{
  ℕ, ◌+◌, ◌<◌, ◌≡◌, ◌≢◌, refl, ◌∙◌, ap, Bool, true, false, not, ◌||◌, Option, none, some, List, [],
  ◌∷◌, arith, ◌==◌, if◌then◌else◌, lt→ltb, ≢→==false,
}
use gecko_os.Keyboard.{
  KeyState, Keyboard, left_shift_sc, right_shift_sc, caps_lock_sc, xor, scancode_to_ascii,
  process_keypress, ps2_kb_wfi, keyboard_handler,
}

-- The interrupt and the reader take turns: each scancode is handled and then read.
unfoldable pub type_keys : List ℕ → Keyboard → Option Keyboard
type_keys [] k = some k
type_keys (sc ∷ scs) k = elim (ps2_kb_wfi 0 (keyboard_handler sc k)) [
  | none ↦ none
  | some r ↦ type_keys scs r.1
]

abbrev pub IsPlain : List ℕ → Type 0
IsPlain [] = Unit {0}
IsPlain (sc ∷ scs) = (sc < 256) × (sc ≢ 0xE0) × IsPlain scs

-- Whether a key is down after a sequence, from whether it was before: its last event decides.
abbrev pub down_after : (key : ℕ) → List ℕ → Bool → Bool
down_after key [] b = b
down_after key (sc ∷ scs) b =
    down_after key scs (if sc == key then true else if sc == key + 128 then false else b)

-- Whether a lock is on after a sequence: each press turns it over.
abbrev pub lock_after : (key : ℕ) → List ℕ → Bool → Bool
lock_after key [] b = b
lock_after key (sc ∷ scs) b = lock_after key scs (if sc == key then not b else b)

keypress_lem :
    (sc : ℕ) (k : KeyState)
    → sc < 256
    → ((process_keypress sc k).shift_l ≡ (
        if sc == left_shift_sc
        then true
        else if sc == left_shift_sc + 128
        then false
        else k.shift_l))
      × ((process_keypress sc k).shift_r ≡ (
          if sc == right_shift_sc
          then true
          else if sc == right_shift_sc + 128
          then false
          else k.shift_r))
      × ((process_keypress sc k).caps_lock
          ≡ (if sc == caps_lock_sc then not k.caps_lock else k.caps_lock))
unfolding process_keypress
keypress_lem sc k h = (ground (arith, h), ground (arith, h), ground (arith, h))

ascii :
    (k : Keyboard) (c : ℕ)
    → c < 128
    → scancode_to_ascii c k
      ≡ some (
          if xor k.key_state.caps_lock (k.key_state.shift_l || k.key_state.shift_r)
          then k.sc_ascii_upper c
          else k.sc_ascii c)
unfolding scancode_to_ascii
ascii k c h = rw (lt→ltb c 128 h) refl

-- A plain scancode that is handled and read moves the key state and nothing else.
read_plain :
    (sc : ℕ) (k : Keyboard)
    → sc ≢ 0xE0
    → ps2_kb_wfi 0 (keyboard_handler sc k)
      ≡ some (
        sc,
        record k {
          key_state = process_keypress sc k.key_state;
          kb_ready = false;
          last_scancode = sc;
        },
      )
unfolding ps2_kb_wfi keyboard_handler
read_plain sc k h = rw (≢→==false sc 0xE0 h) refl

-- For scancodes below 256 that are not the extension prefix: a reader that takes each scancode as it
-- comes never waits, and afterwards either shift is down as its last event says, caps lock has
-- turned over with each press, and a key below 128 gives the layout's upper entry if one of caps
-- lock and shift is on, and its lower entry otherwise.
pub type_keys_lem :
    (scs : List ℕ) (k : Keyboard)
    → IsPlain scs
    → (k' : Keyboard) × (type_keys scs k ≡ some k')
      × (k'.key_state.shift_l ≡ down_after left_shift_sc scs k.key_state.shift_l)
      × (k'.key_state.shift_r ≡ down_after right_shift_sc scs k.key_state.shift_r)
      × (k'.key_state.caps_lock ≡ lock_after caps_lock_sc scs k.key_state.caps_lock)
      × ((c : ℕ)
          → c < 128
          → scancode_to_ascii c k'
            ≡ some (
                if xor (lock_after caps_lock_sc scs k.key_state.caps_lock) (
                  down_after left_shift_sc scs k.key_state.shift_l
                  || down_after right_shift_sc scs k.key_state.shift_r)
                then k.sc_ascii_upper c
                else k.sc_ascii c))
unfolding type_keys
type_keys_lem [] k plain = (k, refl, refl, refl, refl, ascii k)
type_keys_lem (sc ∷ scs) k plain =
    let (l, r, caps) = keypress_lem sc k.key_state plain.0 in
    let next = record k {
      key_state = process_keypress sc k.key_state;
      kb_ready = false;
      last_scancode = sc;
    } in
    let (k', ran, l', r', caps', chars) = type_keys_lem scs next plain.2 in
    (
      k',
      ap (λ o. elim o [ none ↦ none | some p ↦ type_keys scs p.1 ]) (read_plain sc k plain.1) ∙ ran,
      l' ∙ ap (λ b. down_after left_shift_sc scs b) l,
      r' ∙ ap (λ b. down_after right_shift_sc scs b) r,
      caps' ∙ ap (λ b. lock_after caps_lock_sc scs b) caps,
      λ c h. chars c h ∙ rw (l, r, caps) refl,
    )
