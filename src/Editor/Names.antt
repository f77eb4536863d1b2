-- ===== src/Editor/Names.antt =====
-- How `ed_load` compares names.
use gecko_os.Prelude.{
  ℕ, ◌≡◌, ◌↔◌, refl, true, Bool-cases, inl, inr, List, [], ◌∷◌, map, arith, ◌==◌, ==-refl,
  kept_true, kept_false,
}
use gecko_os.Editor.Files.{to_upper, same_name}

same_name→map : (a b : List ℕ) → same_name a b ≡ true → map to_upper a ≡ map to_upper b
unfolding same_name
same_name→map [] [] h = refl
same_name→map [] (y ∷ b) h = cc
same_name→map (x ∷ a) [] h = cc
same_name→map (x ∷ a) (y ∷ b) h = elim (Bool-cases (to_upper x == to_upper y)) [
  | inl same ↦
      let first : to_upper x ≡ to_upper y = ground arith in
      let rest : same_name a b ≡ true = kept_true same (same_name a b) h in
      rw (first, same_name→map a b rest) refl
  | inr other ↦ absurd (kept_false other (same_name a b) h)
]

map→same_name : (a b : List ℕ) → map to_upper a ≡ map to_upper b → same_name a b ≡ true
unfolding same_name
map→same_name [] [] h = refl
map→same_name [] (y ∷ b) h = cc
map→same_name (x ∷ a) [] h = cc
map→same_name (x ∷ a) (y ∷ b) h =
    let first : to_upper x ≡ to_upper y = cc in
    let rest : map to_upper a ≡ map to_upper b = cc in
    rw (first, ==-refl (to_upper y), map→same_name a b rest) refl

-- Two names match exactly when they are the same in capital letters.
pub same_name_iff : (a b : List ℕ) → (same_name a b ≡ true) ↔ (map to_upper a ≡ map to_upper b)
same_name_iff a b = (same_name→map a b, map→same_name a b)
